-- ===== src/Mm/PageTable/Change.antt =====
-- `change_pte_prot` and `unmap_page` of mm/mmap.c.
use mini_os.Prelude.{
  ℕ, zero, suc, ◌+◌, ◌^◌, ◌≤◌, ◌<◌, ◌≡◌, ◌≢◌, inl, inr, refl, sym, ap, ◌∙◌, Bool, true, false, not,
  ◌&&◌, none, some, arith, ltb, leb, ◌*◌, ◌%◌, ◌/◌, ◌==◌, ==_iff, Bool-cases, Option-cases, bit_and,
  if◌then◌else◌,
}
use mathlib.Core.Path.{subst}
use mathlib.Core.Option.{some-ne-none, some-injective}
use mini_os.Mm.PageAlloc.{virt_to_page, page_size}
use mini_os.Mm.PageTable.{
  Pte, Entries, Frames, find_pte, pte_set, pte_write, pte_wrprotect, prot_to_pte, map_prot_write,
  is_shared, change_pte_prot, unmap_page, change_prot_range, unmap_range, put_frame,
}
use mini_os.Mm.PageTable.Account.{Accounts-eq, one}
use mini_os.Mm.PageTable.Settle.{put_page-Accounts}
use mini_os.Mm.PageTable.Walk.{
  Parts, Parts-page, index-page, find_pte-pte_set, find_pte-pte_set_other,
}
use mini_os.Mm.PageTable.Uses.{uses, slot_uses, uses-pte_set, pte_set-IsFull}
use mini_os.Mm.PageTable.Space.{
  owners, IsSpace, uses-find_pte, find_pte_same, pte_set-IsPrivate, page_of_used, page_count-owners,
}

-- The entry that a change of protection makes of `old`.
abbrev new_pte : Frames → Pte → (map_prot : ℕ) → Pte
new_pte f old map_prot =
    let pte = prot_to_pte old.page map_prot in
    if not (bit_and map_prot map_prot_write == 0) && is_shared f (virt_to_page f.pages old.page)
    then pte_wrprotect pte
    else pte

new_pte-page : (f : Frames) (old : Pte) (map_prot : ℕ) → (new_pte f old map_prot).page ≡ old.page
unfolding prot_to_pte pte_wrprotect
new_pte-page f old map_prot = ground arith

-- Writable exactly if the protection has it and the page is not shared.
new_pte-pte_write :
    (f : Frames) (old : Pte) (map_prot : ℕ)
    → pte_write (new_pte f old map_prot) ≡ (
        not (bit_and map_prot map_prot_write == 0)
        && not (is_shared f (virt_to_page f.pages old.page)))
unfolding prot_to_pte pte_wrprotect pte_write
new_pte-pte_write f old map_prot = ground arith

new_pte-access :
    (f : Frames) (old : Pte) (map_prot : ℕ)
    → let pte = new_pte f old map_prot in
      (pte.user ≡ not (bit_and map_prot 7 == 0)) × (pte.uxn ≡ (bit_and map_prot 4 == 0))
unfolding prot_to_pte pte_wrprotect
new_pte-access f old map_prot = ground arith

-- What `change_pte_prot` makes of the entry of `va`.
pub record Reprotected (others : ℕ → ℕ) (pgd : Entries 2) (va map_prot : ℕ) (old : Pte)
    (pgd' : Entries 2) : Type 0 where
  pub pte : Pte
  pub found : find_pte 2 pgd' va ≡ some pte
  pub page : pte.page ≡ old.page
  pub user : pte.user ≡ not (bit_and map_prot 7 == 0)
  pub uxn : pte.uxn ≡ (bit_and map_prot 4 == 0)
  -- writing is allowed if the protection has it and nobody else uses the page
  pub write :
      pte_write pte
      ≡ (not (bit_and map_prot map_prot_write == 0) && (owners others 2 pgd old.page == 1))

-- The call on an address space: an entry of `va` is changed, and no other.
abbrev pub ReprotectedAt : (others : ℕ → ℕ) → Entries 2 → (va map_prot : ℕ) → Entries 2 → Type 0
ReprotectedAt others pgd va map_prot pgd' =
    (find_pte 2 pgd va ≡ none → pgd' ≡ pgd)
    × ((old : Pte) → find_pte 2 pgd va ≡ some old → Reprotected others pgd va map_prot old pgd')
    × ((other : ℕ) → Parts 2 va other → find_pte 2 pgd' other ≡ find_pte 2 pgd other)

module _ {others : ℕ → ℕ} {f : Frames} {pgd : Entries 2} (s : IsSpace others f pgd)
    (va map_prot : ℕ) where
  module _ (old : Pte) (e : find_pte 2 pgd va ≡ some old) where
    used : 0 < owners others 2 pgd old.page
    used = omega (arith, uses-find_pte 2 pgd va old s.full e)

    sole : not (is_shared f (virt_to_page f.pages old.page)) ≡ (owners others 2 pgd old.page == 1)
    unfolding is_shared
    sole =
        rw (page_of_used s old.page used, page_count-owners s old.page used)
          (ground (arith, s.bounded old.page, used))

    abbrev pte : Pte
    pte = new_pte f old map_prot

    changed : change_pte_prot f pgd va map_prot ≡ pte_set 2 pgd va (some pte)
    unfolding change_pte_prot
    changed = rw (e, change_pte_prot)

    same_uses : (q : ℕ) → uses 2 (pte_set 2 pgd va (some pte)) q ≡ uses 2 pgd q
    same_uses q = omega (
      arith,
      uses-pte_set 2 pgd va old (some pte) q s.full e,
      ap (λ p. one p q) (new_pte-page f old map_prot),
    )

    sole_writer : pte_write pte ≡ true → owners others 2 pgd old.page ≡ 1
    sole_writer writable = ground (arith, new_pte-pte_write f old map_prot, sole)

    owned :
        (new : Pte) → some pte ≡ some new → pte_write new ≡ true → owners others 2 pgd new.page ≡ 1
    owned new is_new writable =
        let same = some-injective pte new is_new in
        let here = sole_writer (ap pte_write same ∙ writable) in
        ap (owners others 2 pgd) (sym (ap (λ p. p.page) same) ∙ new_pte-page f old map_prot) ∙ here

    kept : IsSpace others f (pte_set 2 pgd va (some pte))
    kept = record {
      full = pte_set-IsFull 2 pgd va (some pte) s.full;
      accounts = Accounts-eq (λ q. omega (arith, same_uses q)) s.accounts;
      bounded = λ q. omega (arith, same_uses q, s.bounded q);
      private =
          pte_set-IsPrivate 2 pgd va old (some pte) s.full e others s.private
            (λ q l. omega (arith, same_uses q))
            (λ new is_new writable. omega (arith, same_uses new.page, owned new is_new writable));
    }

    reprotected : Reprotected others pgd va map_prot old (pte_set 2 pgd va (some pte))
    reprotected = record {
      pte = pte;
      found = find_pte-pte_set 2 pgd va old (some pte) s.full e;
      page = new_pte-page f old map_prot;
      user = (new_pte-access f old map_prot).0;
      uxn = (new_pte-access f old map_prot).1;
      write =
          new_pte-pte_write f old map_prot
          ∙ ap (λ b. not (bit_and map_prot map_prot_write == 0) && b) sole;
    }

  -- In an address space in order, to change the protection of a page keeps it in order and changes
  -- no other page's entry. A page that is not mapped stays unmapped, and a mapped one keeps its
  -- address and takes user access and execution from the new protection; it becomes writable
  -- exactly where the new protection says so and the page has one user.
  pub change_pte_prot-Reprotected :
      IsSpace others f (change_pte_prot f pgd va map_prot)
      × ReprotectedAt others pgd va map_prot (change_pte_prot f pgd va map_prot)
  unfolding change_pte_prot
  change_pte_prot-Reprotected = elim (Option-cases (find_pte 2 pgd va)) [
    | inl e ↦
        let none_there : change_pte_prot f pgd va map_prot ≡ pgd = rw (e, change_pte_prot) in
        rw none_there
          (s, ((λ f. refl), (λ old g. absurd (some-ne-none old (sym g ∙ e))), λ other parts. refl))
    | inr (old, e) ↦ rw (changed old e) (
      kept old e,
      (
        (λ f. absurd (some-ne-none old (sym e ∙ f))),
        (λ old' g.
            subst (λ o. Reprotected others pgd va map_prot o (pte_set 2 pgd va (some (pte old e))))
              (some-injective old old' (sym e ∙ g)) (reprotected old e)),
        λ other parts. find_pte-pte_set_other 2 pgd va other (some (pte old e)) s.full parts,
      ),
    )
  ]

-- What `unmap_page` leaves: no entry of `va`, and every other one.
pub record Unmapped (others : ℕ → ℕ) (pgd : Entries 2) (va : ℕ) (out : Entries 2 × Frames)
    : Type 0 where
  pub space : IsSpace others out.1 out.0
  pub gone : find_pte 2 out.0 va ≡ none
  pub kept : (other : ℕ) → Parts 2 va other → find_pte 2 out.0 other ≡ find_pte 2 pgd other
  -- the page, if there was one, has one use less, and no other page changes hands
  pub uses :
      (q : ℕ) → owners others 2 out.0 q + slot_uses 0 (find_pte 2 pgd va) q ≡ owners others 2 pgd q

module _ {others : ℕ → ℕ} {f : Frames} {pgd : Entries 2} (s : IsSpace others f pgd) (va : ℕ) where
  module _ (old : Pte) (e : find_pte 2 pgd va ≡ some old) where
    fewer : (q : ℕ) → uses 2 (pte_set 2 pgd va none) q + one old.page q ≡ uses 2 pgd q
    fewer q = omega (arith, uses-pte_set 2 pgd va old none q s.full e)

    unmapped : Unmapped others pgd va (pte_set 2 pgd va none, put_frame f old.page)
    unmapped = record {
      space = record {
        full = pte_set-IsFull 2 pgd va none s.full;
        accounts =
            put_page-Accounts old.page (Accounts-eq (λ q. omega (arith, fewer q)) s.accounts)
              (omega (arith, fewer old.page, s.bounded old.page));
        bounded = λ q. omega (arith, fewer q, s.bounded q);
        private =
            pte_set-IsPrivate 2 pgd va old none s.full e others s.private
              (λ q l. omega (arith, fewer q))
              (λ new is_new writable. absurd (some-ne-none new (sym is_new)));
      };
      gone = find_pte-pte_set 2 pgd va old none s.full e;
      kept = λ other parts. find_pte-pte_set_other 2 pgd va other none s.full parts;
      uses = λ q. omega (arith, fewer q, ap (λ o. slot_uses 0 o q) e);
    }

  -- In an address space in order, the page at `va` loses its entry and one use, and every other
  -- entry is kept.
  pub unmap_page-Unmapped : Unmapped others pgd va (unmap_page f pgd va)
  unfolding unmap_page
  unmap_page-Unmapped = elim (Option-cases (find_pte 2 pgd va)) [
    | inl e ↦
        rw (e, unmap_page)
          (record {
            space = s;
            gone = e;
            kept = λ other parts. refl;
            uses = λ q. omega (arith, ap (λ o. slot_uses 0 o q) e);
          })
    | inr (old, e) ↦ rw (e, unmap_page) (unmapped old e)
  ]

-- The loops of `mprotect` and `munmap` over their pages keep the address space in order.
pub change_prot_range-IsSpace :
    {others : ℕ → ℕ} {f : Frames} (pgd : Entries 2)
    → IsSpace others f pgd
    → (va map_prot count : ℕ) → IsSpace others f (change_prot_range f pgd va map_prot count)
unfolding change_prot_range
change_prot_range-IsSpace pgd s va map_prot zero = s
change_prot_range-IsSpace {others} {f} pgd s va map_prot (suc count) =
    change_prot_range-IsSpace (change_pte_prot f pgd va map_prot)
      (change_pte_prot-Reprotected s va map_prot).0 (va + page_size) map_prot count

-- What is in the range of `count` pages from `va` on.
abbrev pub in_range : (va count at : ℕ) → Bool
in_range va count at = leb va at && ltb at (va + count * page_size)

in_range-suc_same :
    (va count at : ℕ)
    → va % page_size ≡ 0
    → at / 4096 ≡ va / 4096
    → in_range va (suc count) at ≡ true
in_range-suc_same va count at a e = ground arith

in_range-suc_other :
    (va count at : ℕ)
    → va % page_size ≡ 0
    → at / 4096 ≢ va / 4096
    → in_range (va + page_size) count at ≡ in_range va (suc count) at
in_range-suc_other va count at a e = ground arith

in_range-same :
    (va count at : ℕ)
    → at / 4096 ≡ va / 4096
    → va % page_size ≡ 0
    → in_range (va + page_size) count at ≡ false
in_range-same va count at e a = ground arith

-- For a range that begins at a page and ends within the 2^39 bytes of an address space in order,
-- the loop of munmap leaves it in order, with no address of the range mapped and every other one
-- mapped as before.
pub unmap_range-gone :
    {others : ℕ → ℕ} (count : ℕ) {f : Frames} {pgd : Entries 2} (va : ℕ)
    → IsSpace others f pgd
    → va % page_size ≡ 0
    → va + count * page_size ≤ 2 ^ 39
    → let out = unmap_range f pgd va count in
      IsSpace others out.1 out.0
      × ((at : ℕ)
          → at < 2 ^ 39
          → find_pte 2 out.0 at ≡ (if in_range va count at then none else find_pte 2 pgd at))
unfolding unmap_range
unmap_range-gone zero va s a l = (s, λ at h. ground arith)
unmap_range-gone {others} (suc count) {f} {pgd} va s a l =
    let first = unmap_page-Unmapped s va in
    let (space, rest) =
      unmap_range-gone count (va + page_size) first.space (omega arith) (omega arith) in
    (
      space,
      λ at h. rest at h ∙ elim (Bool-cases (at / 4096 == va / 4096)) [
        | inl here ↦
            let e = (==_iff (at / 4096) (va / 4096)).0 here in
            rw (in_range-same va count at e a, in_range-suc_same va count at a e)
              (find_pte_same 2 (unmap_page f pgd va).0 va at (λ k m. index-page k va at m (sym e))
                ∙ first.gone)
        | inr off ↦ rw (in_range-suc_other va count at a (ground arith)) (
            ap (λ o. if in_range va (suc count) at then none else o)
              (first.kept at (Parts-page va at (omega arith) h (ground arith))))
      ],
    )
