-- ===== src/Mm/PageTable/Fault.antt =====
-- `do_page_fault` of mm/mmap.c: demand paging, copy on write, and the faults that are refused.
use mini_os.Prelude.{
  ℕ, ◌+◌, ◌*◌, ◌/◌, ◌^◌, ◌≤◌, ◌<◌, ◌≡◌, ◌⊎◌, inl, inr, refl, sym, ap, ◌∙◌, Bool, true, false,
  Option, none, some, List, arith, ◌==◌, ==_iff, Bool-cases, Option-cases, if◌then◌else◌, update,
}
use mathlib.Core.Path.{subst}
use mathlib.Core.Option.{some-ne-none, some-injective}
use mini_os.Prelude.Int.{pos}
use mini_os.Kernel.Task.{ok, err, enomem, efault}
use mini_os.Mm.Mmap.{VmAreaStruct}
use mini_os.Mm.PageAlloc.{page_size, alloc_pages}
use mini_os.Mm.PageTable.{
  Pte, Entries, Frames, Access, access_ok, is_store, covering, find_pte, prot_to_pte, va_mapped,
  take_page, map_from, map_page, free_frame, fill_page, do_cow_fault, fault_in, do_page_fault,
}
use mini_os.Mm.PageTable.Account.{
  Accounts-eq, add_use, one, one-unused, one_self, alloc_pages-Taken,
}
use mini_os.Mm.PageTable.Settle.{free_pages-Accounts}
use mini_os.Mm.PageTable.Uses.{uses}
use mini_os.Mm.PageTable.Map.{unless, unless-le, Mapped, map_from-Mapped}
use mini_os.Mm.PageTable.Space.{owners, IsPrivate, IsSpace, Parts-cases, find_pte_same}
use mini_os.Mm.PageTable.Cow.{Out, Elsewhere, CowOutcome, same_Elsewhere, do_cow_fault-CowOutcome}

-- A page of zeros that was not in use is mapped at `va`, and is used by this entry alone.
pub record Filled (others : ℕ → ℕ) (pgd : Entries 2) (va flags : ℕ) (out : Out) : Type 0 where
  pub page : ℕ
  pub unused : owners others 2 pgd page ≡ 0
  pub found : find_pte 2 out.1 va ≡ some (prot_to_pte page flags)
  pub alone : owners others 2 out.1 page ≡ 1
  pub zeros : (offset : ℕ) → out.2.bytes page offset ≡ 0

page_of : (addr flags : ℕ) → (prot_to_pte addr flags).page ≡ addr
unfolding prot_to_pte
page_of addr flags = refl

abbrev pub FillOutcome : (others : ℕ → ℕ) → Entries 2 → (va flags : ℕ) → Out → Type 0
FillOutcome others pgd va flags out =
    ((out.0 ≡ ok 0) × Filled others pgd va flags out)
    ⊎ ((out.0 ≡ err enomem) × (find_pte 2 out.1 va ≡ none))

module _ {others : ℕ → ℕ} {f : Frames} {pgd : Entries 2} (s : IsSpace others f pgd) (va : ℕ)
    (absent : find_pte 2 pgd va ≡ none) where
  -- A page was taken and zeroed, and `map_page` ran.
  module _ (addr flags : ℕ) (unused : owners others 2 pgd addr ≡ 0)
      (out : Bool × Entries 2 × Frames)
      (m : Mapped 2 others
        (update f.bytes addr (λ offset. 0))
        pgd
        va
        (prot_to_pte addr flags)
        out) where
    abbrev pte : Pte
    pte = prot_to_pte addr flags

    -- What was used before is used as often, and the new page once, by the entry or the caller.
    after : (q : ℕ) → 0 < owners others 2 pgd q → owners others 2 out.1 q ≡ owners others 2 pgd q
    unfolding prot_to_pte
    after q l = omega (
      arith,
      m.stable q (omega arith),
      one-unused (owners others 2 pgd) addr q unused l,
      unless-le out.0 pte q,
    )

    after_addr : others addr + unless out.0 pte addr + uses 2 out.1 addr ≡ 1
    unfolding prot_to_pte
    after_addr = omega (arith, m.stable addr (omega (arith, one_self addr)), one_self addr, unused)

    after_few : (q : ℕ) → owners others 2 out.1 q ≤ owners others 2 pgd q + 1
    unfolding prot_to_pte
    after_few q = elim (Bool-cases (owners others 2 pgd q == 0)) [
      | inr l ↦ omega (arith, after q (ground arith))
      | inl z ↦ elim (Bool-cases (q == addr)) [
        | inl here ↦
            omega (arith, after_addr, ap (λ k. others k + uses 2 out.1 k) ((==_iff q addr).0 here))
        | inr off ↦ omega (arith, m.fresh q (ground arith))
      ]
    ]

    after-bounded : (q : ℕ) → owners others 2 out.1 q < 2 ^ 31
    unfolding prot_to_pte
    after-bounded q = elim (Bool-cases (owners others 2 pgd q == 0)) [
      | inr l ↦ omega (arith, after q (ground arith), s.bounded q)
      | inl z ↦ ground (arith, after_few q)
    ]

    after_content : (q : ℕ) → 0 < owners others 2 pgd q → out.2.bytes q ≡ f.bytes q
    after_content q l =
        ap (λ h. h q) m.bytes ∙ ground (arith, one-unused (owners others 2 pgd) addr q unused l)

    after-find :
        (other : ℕ) (x : Pte)
        → find_pte 2 out.1 other ≡ some x
        → ((out.0 ≡ true) × (x ≡ pte)) ⊎ (find_pte 2 pgd other ≡ some x)
    after-find other x e = elim (Parts-cases 2 va other) [
      | inl parts ↦ inr (sym (m.kept other parts) ∙ e)
      | inr same ↦ elim (Bool-cases out.0) [
        | inl done ↦ inl (
          done,
          some-injective x pte (sym e ∙ find_pte_same 2 out.1 va other same ∙ m.found done),
        )
        | inr failed ↦
            absurd (some-ne-none x (sym e ∙ find_pte_same 2 out.1 va other same ∙ m.missed failed))
      ]
    ]

    after_done : out.0 ≡ true → owners others 2 out.1 addr ≡ 1
    after_done done = omega (arith, after_addr, ap (λ d. unless d pte addr) done)

    after-IsPrivate : IsPrivate others 2 out.1
    after-IsPrivate other x e w = elim (after-find other x e) [
      | inl (done, is) ↦ ap (λ y. owners others 2 out.1 y.page) is ∙ pte_page (after_done done)
      | inr stood ↦
          let before = s.private other x stood w in
          omega (arith, before, after x.page (omega (arith, before)))
    ]
      where
        pte_page : owners others 2 out.1 addr ≡ 1 → owners others 2 out.1 pte.page ≡ 1
        pte_page e = subst (λ p. owners others 2 out.1 p ≡ 1) (sym (page_of addr flags)) e

    -- With the page in its place, and with the page given back.
    done_Elsewhere : out.0 ≡ true → Elsewhere others f pgd va (ok 0, out.1, out.2)
    done_Elsewhere done = record {
      space = record {
        full = m.full;
        accounts = Accounts-eq (λ q. omega (arith, ap (λ d. unless d pte q) done)) m.accounts;
        bounded = after-bounded;
        private = after-IsPrivate;
      };
      kept = m.kept;
      content = after_content;
      few = after_few;
    }

    done_Filled : out.0 ≡ true → Filled others pgd va flags (ok 0, out.1, out.2)
    done_Filled done = record {
      page = addr;
      unused = unused;
      found = m.found done;
      alone = after_done done;
      zeros = λ offset. ap (λ h. h addr offset) m.bytes ∙ ground arith;
    }

    failed_Elsewhere :
        out.0 ≡ false → Elsewhere others f pgd va (err enomem, out.1, free_frame out.2 addr)
    failed_Elsewhere failed = record {
      space = record {
        full = m.full;
        accounts =
            free_pages-Accounts addr (Accounts-eq (λ q. held_by q failed) m.accounts)
              (omega (arith, after_addr, held_by addr failed, one_self addr));
        bounded = after-bounded;
        private = after-IsPrivate;
      };
      kept = m.kept;
      content = after_content;
      few = after_few;
    }
      where
        held_by :
            (q : ℕ)
            → out.0 ≡ false
            → add_use (owners others 2 out.1) addr q
              ≡ others q + unless out.0 pte q + uses 2 out.1 q
        held_by q e =
            omega (arith, ap (λ d. unless d pte q) e, ap (λ p. one p q) (page_of addr flags))

  -- The page at hand, and `map_page` on it.
  abbrev zeroed : (addr : ℕ) → Frames
  zeroed addr = record {
    pages = (alloc_pages f.pages (pos 0)).1;
    bytes = update f.bytes addr (λ offset. 0);
  }

  fill_out : (addr flags : ℕ) (out : Bool × Entries 2 × Frames) → Out
  fill_out addr flags out =
      if out.0 then (ok 0, out.1, out.2) else (err enomem, out.1, free_frame out.2 addr)

  fill_page-taken :
      (addr flags : ℕ)
      → (alloc_pages f.pages (pos 0)).0 ≡ some addr
      → fill_page f pgd va flags
        ≡ fill_out addr flags (map_from 2 (zeroed addr) pgd va (prot_to_pte addr flags))
  unfolding fill_page fill_out map_page
  fill_page-taken addr flags h =
      rw (h, fill_page) (split (map_from 2 (zeroed addr) pgd va (prot_to_pte addr flags)) addr)
    where
      split :
          (out : Bool × Entries 2 × Frames) (addr : ℕ)
          → ◌≡◌ {A = Out}
              (elim (if out.0 then ok 0 else err enomem) as (λ r. Out) [
                | ok n ↦ (ok 0, out.1, out.2)
                | err e ↦ (err e, out.1, free_frame out.2 addr)
              ])
              (if out.0 then (ok 0, out.1, out.2) else (err enomem, out.1, free_frame out.2 addr))
      split (true, es, g) addr = refl
      split (false, es, g) addr = refl

  fill_out-FillOutcome :
      (addr flags : ℕ)
      → owners others 2 pgd addr ≡ 0
      → (out : Bool × Entries 2 × Frames)
      → Mapped 2 others (update f.bytes addr (λ offset. 0)) pgd va (prot_to_pte addr flags) out
      → Elsewhere others f pgd va (fill_out addr flags out)
        × FillOutcome others pgd va flags (fill_out addr flags out)
  unfolding fill_out
  fill_out-FillOutcome addr flags unused out m = elim (Bool-cases out.0) [
    | inl done ↦ rw done (
      done_Elsewhere addr flags unused out m done,
      inl (refl, done_Filled addr flags unused out m done),
    )
    | inr failed ↦
        rw failed (failed_Elsewhere addr flags unused out m failed, inr (refl, m.missed failed))
  ]

  pub fill_page-FillOutcome :
      (flags : ℕ)
      → Elsewhere others f pgd va (fill_page f pgd va flags)
        × FillOutcome others pgd va flags (fill_page f pgd va flags)
  unfolding fill_page
  fill_page-FillOutcome flags = elim (alloc_pages-Taken s.accounts) [
    | inl (h, same) ↦
        rw (h, fill_page)
          (same_Elsewhere s va (err enomem) (take_page f).1 same refl, inr (refl, absent))
    | inr (addr, h, unused, taken) ↦ rw (fill_page-taken addr flags h) (
        fill_out-FillOutcome addr flags unused
          (map_from 2 (zeroed addr) pgd va (prot_to_pte addr flags))
          (map_from-Mapped 2 others (zeroed addr) pgd va (prot_to_pte addr flags) s.full absent
            (Accounts-eq (λ q. omega (arith, ap (λ p. one p q) (page_of addr flags))) taken)))
  ]

-- What a page fault answers: it is refused and nothing changes, or a page is filled in, or a copy
-- on write is broken.
abbrev pub FaultOutcome :
    (others : ℕ → ℕ) → Frames → Entries 2 → (va : ℕ) → Access → Option VmAreaStruct → Out → Type 0
FaultOutcome others f pgd va access none out = out ≡ (err efault, pgd, f)
FaultOutcome others f pgd va access (some vma) out =
    if access_ok access vma.vm_flags
    then elim (find_pte 2 pgd va) as (λ p. Type 0) [
      | none ↦ FillOutcome others pgd va vma.vm_flags out
      | some old ↦
          if is_store access
          then CowOutcome others f va vma.vm_flags old out
          else (out ≡ (err efault, pgd, f))
    ]
    else (out ≡ (err efault, pgd, f))

fault_in-FaultOutcome :
    {others : ℕ → ℕ} {f : Frames} {pgd : Entries 2}
    → IsSpace others f pgd
    → (va : ℕ) (access : Access) (covered : Option VmAreaStruct)
    → let out = fault_in f pgd va access covered in
      Elsewhere others f pgd va out × FaultOutcome others f pgd va access covered out
unfolding fault_in va_mapped
fault_in-FaultOutcome {f} s va access none = (same_Elsewhere s va (err efault) f refl refl, refl)
fault_in-FaultOutcome {others} {f} {pgd} s va access (some vma) =
    let refused = same_Elsewhere s va (err efault) f refl refl in
    elim (Bool-cases (access_ok access vma.vm_flags)) [
      | inr g ↦ answer (err efault, pgd, f) (rw g) (refused, rw g refl)
      | inl g ↦ elim (Option-cases (find_pte 2 pgd va)) [
        | inl h ↦
            let (there, filled) = fill_page-FillOutcome s va h vma.vm_flags in
            answer (fill_page f pgd va vma.vm_flags) (rw (g, h)) (there, rw (g, h) filled)
        | inr (old, h) ↦ elim (Bool-cases (is_store access)) [
          | inr k ↦ answer (err efault, pgd, f) (rw (g, h, k)) (refused, rw (g, h, k) refl)
          | inl k ↦
              let (there, cow) = do_cow_fault-CowOutcome s va old h vma in
              answer (do_cow_fault f pgd va vma) (rw (g, h, k)) (there, rw (g, h, k) cow)
        ]
      ]
    ]
  where
    answer :
        (out : Out)
        → fault_in f pgd va access (some vma) ≡ out
        → Elsewhere others f pgd va out × FaultOutcome others f pgd va access (some vma) out
        → Elsewhere others f pgd va (fault_in f pgd va access (some vma))
          × FaultOutcome others f pgd va access (some vma) (fault_in f pgd va access (some vma))
    answer out is holds =
        subst (λ o. Elsewhere others f pgd va o × FaultOutcome others f pgd va access (some vma) o)
          (sym is) holds

-- In an address space in order, a page fault keeps it in order, changes no entry but the one of the
-- fault's page and no byte of a page in use. It is refused with EFAULT, and nothing changes, where
-- no area covers the address, the area does not permit the access, or a page is there and the
-- access is no store. Where no page is there, the page gets a zeroed page that nothing used, with
-- the area's protection, or the answer is ENOMEM. A store to a read-only page of a writable area
-- makes it writable, with the old content and this entry as its only user, or answers ENOMEM and
-- the entry stays.
pub do_page_fault-FaultOutcome :
    {others : ℕ → ℕ} {f : Frames} {pgd : Entries 2}
    → IsSpace others f pgd
    → (areas : List VmAreaStruct) (addr : ℕ) (access : Access)
    → let va = addr / page_size * page_size in
      let out = do_page_fault f pgd areas addr access in
      Elsewhere others f pgd va out × FaultOutcome others f pgd va access (covering areas addr) out
unfolding do_page_fault
do_page_fault-FaultOutcome s areas addr access =
    fault_in-FaultOutcome s (addr / page_size * page_size) access (covering areas addr)
