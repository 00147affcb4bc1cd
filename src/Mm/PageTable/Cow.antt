-- ===== src/Mm/PageTable/Cow.antt =====
-- `do_cow_fault` of mm/mmap.c: a write to a page that is mapped read-only in a writable area.
use mini_os.Prelude.{
  ℕ, ◌+◌, ◌^◌, ◌≤◌, ◌<◌, ◌≡◌, ◌⊎◌, inl, inr, refl, sym, ap, ◌∙◌, Bool, true, false, not, ◌||◌, some,
  arith, ◌==◌, ==_iff, Bool-cases, if◌then◌else◌, update,
}
use mathlib.Core.Option.{some-injective}
use mini_os.Prelude.Int.{pos}
use mini_os.Kernel.Task.{Ret, ok, err, enomem, efault}
use mini_os.Mm.Mmap.{VmAreaStruct}
use mini_os.Mm.PageAlloc.{alloc_pages}
use mini_os.Mm.PageTable.{
  Pte, Entries, Frames, find_pte, pte_set, pte_write, pte_mkwrite, pte_cow_candidate, take_page,
  put_frame, copy_page, do_cow_fault,
}
use mini_os.Mm.PageTable.Account.{
  Accounts, Accounts-eq, add_use, one, one-unused, one_self, alloc_pages-Taken,
}
use mini_os.Mm.PageTable.Settle.{put_page-Accounts}
use mini_os.Mm.PageTable.Walk.{Parts, find_pte-pte_set, find_pte-pte_set_other}
use mini_os.Mm.PageTable.Uses.{uses, uses-pte_set, pte_set-IsFull}
use mini_os.Mm.PageTable.Space.{
  owners, IsSpace, uses-find_pte, pte_set-IsPrivate, page_of_used, page_count-owners,
}

abbrev pub Out : Type 0
Out = Ret × Entries 2 × Frames

-- The entry `old` of `va` became one that can be written, for a page with the same content that
-- nobody else uses.
pub record Granted (others : ℕ → ℕ) (f : Frames) (va : ℕ) (old : Pte) (out : Out) : Type 0 where
  pub pte : Pte
  pub found : find_pte 2 out.1 va ≡ some pte
  pub writable : pte_write pte ≡ true
  pub alone : owners others 2 out.1 pte.page ≡ 1
  pub content : out.2.bytes pte.page ≡ f.bytes old.page
  pub access : (pte.user ≡ old.user) × (pte.uxn ≡ old.uxn)

-- Nothing else changes: the other entries, and the content of every page in use.
pub record Elsewhere (others : ℕ → ℕ) (f : Frames) (pgd : Entries 2) (va : ℕ) (out : Out)
    : Type 0 where
  pub space : IsSpace others out.2 out.1
  pub kept : (other : ℕ) → Parts 2 va other → find_pte 2 out.1 other ≡ find_pte 2 pgd other
  pub content : (q : ℕ) → 0 < owners others 2 pgd q → out.2.bytes q ≡ f.bytes q
  pub few : (q : ℕ) → owners others 2 out.1 q ≤ owners others 2 pgd q + 1

self : (n : ℕ) → (n == n) ≡ true
self n = ground arith

or_false : (b : Bool) → (b || false) ≡ b
or_false true = refl
or_false false = refl

-- What a write fault on the entry `old` answers.
abbrev pub CowOutcome : (others : ℕ → ℕ) → Frames → (va flags : ℕ) → Pte → Out → Type 0
CowOutcome others f va flags old out =
    if pte_cow_candidate old flags
    then ((out.0 ≡ ok 0) × Granted others f va old out)
      ⊎ ((out.0 ≡ err enomem) × (find_pte 2 out.1 va ≡ some old))
    else (out.0 ≡ err efault) × (find_pte 2 out.1 va ≡ some old)

module _ {others : ℕ → ℕ} {f : Frames} {pgd : Entries 2} (s : IsSpace others f pgd) (va : ℕ) where
  pub same_Elsewhere :
      (r : Ret) (g : Frames)
      → g.pages ≡ f.pages
      → g.bytes ≡ f.bytes
      → Elsewhere others f pgd va (r, pgd, g)
  same_Elsewhere r g e b = record {
    space = record {
      full = s.full;
      accounts = rw e s.accounts;
      bounded = s.bounded;
      private = s.private;
    };
    kept = λ other parts. refl;
    content = λ q l. ap (λ h. h q) b;
    few = λ q. omega arith;
  }

  module _ (old : Pte) (e : find_pte 2 pgd va ≡ some old) where
    used : 0 < owners others 2 pgd old.page
    used = omega (arith, uses-find_pte 2 pgd va old s.full e)

    -- The sole owner gets its page back for writing.
    module _ (sole : owners others 2 pgd old.page ≡ 1) where
      abbrev reopened : Entries 2
      reopened = pte_set 2 pgd va (some (pte_mkwrite old))

      reopened-uses : (q : ℕ) → uses 2 reopened q ≡ uses 2 pgd q
      unfolding pte_mkwrite
      reopened-uses q = omega (arith, uses-pte_set 2 pgd va old (some (pte_mkwrite old)) q s.full e)

      alone_in :
          (pte : Pte) → some (pte_mkwrite old) ≡ some pte → owners others 2 reopened pte.page ≡ 1
      unfolding pte_mkwrite
      alone_in pte is =
          let page : old.page ≡ pte.page =
            ap (λ p. p.page) (some-injective (pte_mkwrite old) pte is) in
          omega (arith, reopened-uses pte.page, ap (owners others 2 pgd) (sym page) ∙ sole)

      reopened-Elsewhere : Elsewhere others f pgd va (ok 0, reopened, f)
      reopened-Elsewhere = record {
        space = record {
          full = pte_set-IsFull 2 pgd va (some (pte_mkwrite old)) s.full;
          accounts = Accounts-eq (λ q. omega (arith, reopened-uses q)) s.accounts;
          bounded = λ q. omega (arith, reopened-uses q, s.bounded q);
          private =
              pte_set-IsPrivate 2 pgd va old (some (pte_mkwrite old)) s.full e others s.private
                (λ q l. omega (arith, reopened-uses q)) (λ pte is w. alone_in pte is);
        };
        kept = λ other parts.
            find_pte-pte_set_other 2 pgd va other (some (pte_mkwrite old)) s.full parts;
        content = λ q l. refl;
        few = λ q. omega (arith, reopened-uses q);
      }

      reopened-Granted : Granted others f va old (ok 0, reopened, f)
      unfolding pte_mkwrite pte_write
      reopened-Granted = record {
        pte = pte_mkwrite old;
        found = find_pte-pte_set 2 pgd va old (some (pte_mkwrite old)) s.full e;
        writable = refl;
        alone = alone_in (pte_mkwrite old) refl;
        content = refl;
        access = (refl, refl);
      }

    -- Of a shared page the entry gets a copy.
    module _ (addr : ℕ) (unused : owners others 2 pgd addr ≡ 0) {g : Frames}
        (taken : Accounts (add_use (owners others 2 pgd) addr) g.pages)
        (bytes : (q : ℕ) → g.bytes q ≡ update f.bytes addr (f.bytes old.page) q) where
      abbrev copy : Pte
      copy = pte_mkwrite (record old { page = addr })

      abbrev copied : Entries 2
      copied = pte_set 2 pgd va (some copy)

      copied-uses : (q : ℕ) → uses 2 copied q + one old.page q ≡ uses 2 pgd q + one addr q
      unfolding pte_mkwrite
      copied-uses q = omega (arith, uses-pte_set 2 pgd va old (some copy) q s.full e)

      one_other : one old.page addr ≡ 0
      one_other = elim (Bool-cases (addr == old.page)) [
        | inr n ↦ rw n
        | inl same ↦
            absurd (
              omega (arith, unused, used, ap (owners others 2 pgd) ((==_iff addr old.page).0 same)))
      ]

      copied-alone : owners others 2 copied addr ≡ 1
      copied-alone = omega (
        arith,
        copied-uses addr,
        unused,
        one_self addr,
        one-unused (owners others 2 pgd) addr old.page unused used,
        one_other,
      )

      copied-fewer :
          (q : ℕ) → 0 < owners others 2 pgd q → owners others 2 copied q ≤ owners others 2 pgd q
      copied-fewer q l =
          omega (arith, copied-uses q, one-unused (owners others 2 pgd) addr q unused l)

      copied-bounded : (q : ℕ) → owners others 2 copied q < 2 ^ 31
      copied-bounded q = elim (Bool-cases (owners others 2 pgd q == 0)) [
        | inl z ↦ ground (arith, copied-uses q)
        | inr z ↦ omega (arith, s.bounded q, copied-fewer q (ground arith))
      ]

      page_copy : (pte : Pte) → some copy ≡ some pte → addr ≡ pte.page
      unfolding pte_mkwrite
      page_copy pte is = ap (λ p. p.page) (some-injective copy pte is)

      copied-Elsewhere : Elsewhere others f pgd va (ok 0, copied, put_frame g old.page)
      copied-Elsewhere = record {
        space = record {
          full = pte_set-IsFull 2 pgd va (some copy) s.full;
          accounts =
              put_page-Accounts old.page (Accounts-eq (λ q. omega (arith, copied-uses q)) taken)
                (omega (arith, copied-bounded old.page));
          bounded = copied-bounded;
          private =
              pte_set-IsPrivate 2 pgd va old (some copy) s.full e others s.private copied-fewer
                (λ pte is w. ap (owners others 2 copied) (sym (page_copy pte is)) ∙ copied-alone);
        };
        kept = λ other parts. find_pte-pte_set_other 2 pgd va other (some copy) s.full parts;
        content = λ q l. bytes q ∙ ground (arith, one-unused (owners others 2 pgd) addr q unused l);
        few = λ q. ground (arith, copied-uses q);
      }

      here : update f.bytes addr (f.bytes old.page) addr ≡ f.bytes old.page
      here = rw (self addr)

      copied-Granted : Granted others f va old (ok 0, copied, put_frame g old.page)
      unfolding pte_mkwrite pte_write
      copied-Granted = record {
        pte = copy;
        found = find_pte-pte_set 2 pgd va old (some copy) s.full e;
        writable = refl;
        alone = copied-alone;
        content = bytes addr ∙ here;
        access = (refl, refl);
      }

    cow_step :
        (vma : VmAreaStruct)
        → do_cow_fault f pgd va vma ≡ (
            if not (pte_cow_candidate old vma.vm_flags)
            then (err efault, pgd, f)
            else if owners others 2 pgd old.page == 1
            then (ok 0, pte_set 2 pgd va (some (pte_mkwrite old)), f)
            else copy_page f pgd va old)
    unfolding do_cow_fault
    cow_step vma =
        rw (e, do_cow_fault)
          (rw (
            page_of_used s old.page used,
            page_count-owners s old.page used,
            or_false (not (pte_cow_candidate old vma.vm_flags)),
          ))

    copy_page-CowOutcome :
        let out = copy_page f pgd va old in
        Elsewhere others f pgd va out
        × (((out.0 ≡ ok 0) × Granted others f va old out)
            ⊎ ((out.0 ≡ err enomem) × (find_pte 2 out.1 va ≡ some old)))
    unfolding copy_page
    copy_page-CowOutcome = elim (alloc_pages-Taken s.accounts) [
      | inl (h, same) ↦
          rw (h, copy_page) (same_Elsewhere (err enomem) (take_page f).1 same refl, inr (refl, e))
      | inr (addr, h, unused, taken) ↦
          let g : Frames = record {
            pages = (alloc_pages f.pages (pos 0)).1;
            bytes = update f.bytes addr (f.bytes old.page);
          } in
          rw (h, copy_page)
            (
              copied-Elsewhere addr unused {g = g} taken (λ q. refl),
              inl (refl, copied-Granted addr unused {g = g} taken (λ q. refl)),
            )
    ]

    -- A store to a page that is mapped: refused where the entry is no candidate, and otherwise the
    -- entry gets a page of its own with the same content, or the answer is ENOMEM; nothing else
    -- changes.
    pub do_cow_fault-CowOutcome :
        (vma : VmAreaStruct)
        → let out = do_cow_fault f pgd va vma in
          Elsewhere others f pgd va out × CowOutcome others f va vma.vm_flags old out
    do_cow_fault-CowOutcome vma =
        rw (cow_step vma) (elim (Bool-cases (pte_cow_candidate old vma.vm_flags)) [
          | inr bad ↦ rw bad (same_Elsewhere (err efault) f refl refl, (refl, e))
          | inl good ↦ rw good (elim (Bool-cases (owners others 2 pgd old.page == 1)) [
            | inl sole ↦
                let one = (==_iff (owners others 2 pgd old.page) 1).0 sole in
                rw sole (reopened-Elsewhere one, inl (refl, reopened-Granted one))
            | inr several ↦ rw several copy_page-CowOutcome
          ])
        ])
