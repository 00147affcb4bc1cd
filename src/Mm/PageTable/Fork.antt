-- ===== src/Mm/PageTable/Fork.antt =====
-- `dup_pgtable_level` of mm/mmap.c: what the copy for a new process costs, whether it succeeds or is
-- taken back halfway.
use mini_os.Prelude.{
  true, false, sym, ℕ, suc, ◌+◌, ◌*◌, ◌^◌, ◌≤◌, ◌<◌, ◌≡◌, inl, inr, refl, ap, ◌∙◌, Option, none,
  some, arith, ◌==◌, ==_iff, Bool-cases,
}
use mathlib.Core.Option.{some-ne-none, some-injective}
use mini_os.Prelude.Int.{pos}
use mini_os.Mm.PageAlloc.{alloc_pages}
use mini_os.Mm.PageTable.{Entry, Entries, Frames, take_page}
use mini_os.Mm.PageTable.Tree.{Dup, dup_table, free_pgtable_level}
use mini_os.Mm.PageTable.Account.{
  Accounts, Accounts-eq, add_use, one, one_self, one-unused, alloc_pages-Taken, alloc_pages-total,
  alloc_pages-refused,
}
use mini_os.Mm.PageTable.Uses.{uses, slot_uses, of_option}
use mini_os.Mm.PageTable.Release.{
  tables, entry_tables, tables-le-uses, IsTree, IsBounded, free_entries-bytes,
  free_pgtable_level-Accounts, free_pgtable_level-total, size, entry_size,
}
use mini_os.Mm.PageAlloc.Count.{free_total}

abbrev pub slot_tables : (n : ℕ) → Option (Entry n) → ℕ → ℕ
slot_tables n e q = of_option (λ x. entry_tables n x q) e

abbrev pub slot_size : (n : ℕ) → Option (Entry n) → ℕ
slot_size n e = of_option (λ x. entry_size n x) e

-- There is room to count each page that is mapped once more.
abbrev pub HasRoom : (others : ℕ → ℕ) (n : ℕ) → Entries n → Type 0
HasRoom others n es = (q : ℕ) → others q + 2 * uses n es q < 2 ^ 31

-- What a run over the entries costs: the original uses what it used, and the copy uses a page of
-- the original as often, and each page that was free at most once.
pub record Dupped (n : ℕ) (others : ℕ → ℕ) (f : Frames) (es : Entries n) (d : Dup n) : Type 0 where
  pub accounts : Accounts (λ q. others q + uses n d.src q + uses n d.dst q) d.frames.pages
  pub src_uses : (q : ℕ) → uses n d.src q ≡ uses n es q
  pub src_tables : (q : ℕ) → tables n d.src q ≡ tables n es q
  pub stable : (q : ℕ) → 0 < others q + uses n es q → uses n d.dst q ≤ uses n es q
  pub fresh : (q : ℕ) → others q + uses n es q ≡ 0 → uses n d.dst q ≤ 1
  pub made : (q : ℕ) → 0 < tables n d.dst q → others q + uses n es q ≡ 0
  -- what the copy uses and nothing else does is its tables
  pub only : (q : ℕ) → others q + uses n es q ≡ 0 → uses n d.dst q ≤ tables n d.dst q
  pub total : free_total d.frames.pages + size n d.dst ≡ free_total f.pages
  -- it has all tables of the original, or the free pages were fewer than those
  pub sized : d.done ≡ true → size n d.dst ≡ size n es
  pub short : d.done ≡ false → free_total f.pages < size n es
  pub bytes : d.frames.bytes ≡ f.bytes

-- The same of a whole table, where the copy is given back if it cannot be completed.
pub record TableDupped (n : ℕ) (others : ℕ → ℕ) (f : Frames) (es : Entries n)
    (out : Option (Entry (suc n)) × Entry (suc n) × Frames) : Type 0 where
  pub accounts : Accounts (λ q. others q + uses n out.1.1 q + slot_uses (suc n) out.0 q) out.2.pages
  pub src_uses : (q : ℕ) → uses n out.1.1 q ≡ uses n es q
  pub src_tables : (q : ℕ) → tables n out.1.1 q ≡ tables n es q
  pub stable : (q : ℕ) → 0 < others q + uses n es q → slot_uses (suc n) out.0 q ≤ uses n es q
  pub fresh : (q : ℕ) → others q + uses n es q ≡ 0 → slot_uses (suc n) out.0 q ≤ 1
  pub made : (q : ℕ) → 0 < slot_tables (suc n) out.0 q → others q + uses n es q ≡ 0
  pub only :
      (q : ℕ) → others q + uses n es q ≡ 0 → slot_uses (suc n) out.0 q ≤ slot_tables (suc n) out.0 q
  pub total : free_total out.2.pages + slot_size (suc n) out.0 ≡ free_total f.pages
  pub sized :
      (c : Entry (suc n)) → out.0 ≡ some c → entry_size (suc n) c ≡ entry_size (suc n) (0, es)
  pub short : out.0 ≡ none → free_total f.pages ≤ size n es
  pub bytes : out.2.bytes ≡ f.bytes

module _ (n : ℕ) (others : ℕ → ℕ) (f : Frames) (table : ℕ) (es : Entries n)
    (room : HasRoom others n es) (s : Accounts (λ q. others q + uses n es q) f.pages) where
  -- A page was taken for the copy, and the loop ran.
  module _ (addr : ℕ) (unused : others addr + uses n es addr ≡ 0) (d : Dup n) (g : Frames)
      (same : g.bytes ≡ f.bytes) (spent : free_total g.pages + 1 ≡ free_total f.pages)
      (m : Dupped n (add_use others addr) g es d) where
    loop_stable :
        (q : ℕ) → 0 < others q + uses n es q → (one addr q ≡ 0) × (uses n d.dst q ≤ uses n es q)
    loop_stable q l =
        (one-unused (λ k. others k + uses n es k) addr q unused l, m.stable q (omega arith))

    loop_addr : uses n d.dst addr ≡ 0
    loop_addr = omega (arith, m.stable addr (omega (arith, one_self addr)), unused)

    loop_fresh : (q : ℕ) → others q + uses n es q ≡ 0 → one addr q + uses n d.dst q ≤ 1
    loop_fresh q z = elim (Bool-cases (q == addr)) [
      | inl here ↦ ground (arith, ap (uses n d.dst) ((==_iff q addr).0 here), loop_addr)
      | inr off ↦ ground (arith, m.fresh q)
    ]

    loop_made : (q : ℕ) → 0 < one addr q + tables n d.dst q → others q + uses n es q ≡ 0
    loop_made q l = elim (Bool-cases (q == addr)) [
      | inl here ↦ ap (λ k. others k + uses n es k) ((==_iff q addr).0 here) ∙ unused
      | inr off ↦ ground (arith, m.made q)
    ]

    loop_only :
        (q : ℕ)
        → others q + uses n es q ≡ 0
        → one addr q + uses n d.dst q ≤ one addr q + tables n d.dst q
    loop_only q z = elim (Bool-cases (q == addr)) [
      | inl here ↦ ground (arith, ap (uses n d.dst) ((==_iff q addr).0 here), loop_addr)
      | inr off ↦ ground (arith, m.only q)
    ]

    copied_TableDupped :
        d.done ≡ true → TableDupped n others f es (some (addr, d.dst), (table, d.src), d.frames)
    copied_TableDupped done = record {
      accounts = Accounts-eq (λ q. omega arith) m.accounts;
      src_uses = m.src_uses;
      src_tables = m.src_tables;
      stable = λ q l. omega (arith, loop_stable q l);
      fresh = λ q z. omega (arith, loop_fresh q z);
      made = λ q l. loop_made q (omega arith);
      only = λ q z. loop_only q z;
      total = omega (arith, m.total, spent);
      sized = λ c e.
          sym (ap (entry_size (suc n)) (some-injective (addr, d.dst) c e))
          ∙ ap (λ k. 1 + k) (m.sized done);
      short = λ e. absurd (some-ne-none (addr, d.dst) e);
      bytes = m.bytes ∙ same;
    }

    loop-IsTree : IsTree (add_use (λ q. others q + uses n d.src q) addr) n d.dst
    loop-IsTree q l =
        let z = m.made q l in omega (arith, z, m.fresh q z, m.src_uses q, tables-le-uses n d.dst q)

    loop-IsBounded : IsBounded (add_use (λ q. others q + uses n d.src q) addr) n d.dst
    loop-IsBounded q = elim (Bool-cases (others q + uses n es q == 0)) [
      | inl z ↦
          let zero_before : others q + uses n es q ≡ 0 = ground arith in
          omega (arith, zero_before, loop_fresh q zero_before, m.src_uses q)
      | inr l ↦
          let used : 0 < others q + uses n es q = ground arith in
          omega (arith, loop_stable q used, room q, m.src_uses q)
    ]

    undone :
        free_total (free_pgtable_level n d.frames (addr, d.dst)).pages
        ≡ free_total d.frames.pages + size n d.dst + 1
    undone =
        free_pgtable_level-total n (λ q. others q + uses n d.src q) d.frames addr d.dst loop-IsTree
          loop-IsBounded (λ q z. m.only q (omega (arith, m.src_uses q)))
          (omega (arith, unused, loop_addr, m.src_uses addr))
          (Accounts-eq (λ q. omega arith) m.accounts)

    undone_TableDupped :
        d.done ≡ false
        → TableDupped n others f es
            (none, (table, d.src), free_pgtable_level n d.frames (addr, d.dst))
    unfolding free_pgtable_level
    undone_TableDupped failed = record {
      accounts =
          Accounts-eq (λ q. omega arith)
            (free_pgtable_level-Accounts n (λ q. others q + uses n d.src q) d.frames addr d.dst
              loop-IsTree loop-IsBounded (omega (arith, unused, loop_addr, m.src_uses addr))
              (Accounts-eq (λ q. omega arith) m.accounts));
      src_uses = m.src_uses;
      src_tables = m.src_tables;
      stable = λ q l. omega arith;
      fresh = λ q z. omega arith;
      made = λ q l. absurd (omega arith);
      only = λ q z. omega arith;
      total = omega (arith, m.total, spent, undone);
      sized = λ c e. absurd (some-ne-none c (sym e));
      short = λ e. omega (arith, m.short failed, spent);
      bytes = free_entries-bytes n d.frames d.dst ∙ m.bytes ∙ same;
    }

  pub dup_table-TableDupped :
      (loop : Frames → Dup n)
      → ((addr : ℕ) (g : Frames)
          → HasRoom (add_use others addr) n es
          → Accounts (λ q. add_use others addr q + uses n es q) g.pages
          → Dupped n (add_use others addr) g es (loop g))
      → TableDupped n others f es (dup_table n loop f table es)
  unfolding dup_table
  dup_table-TableDupped loop runs = elim (alloc_pages-Taken s) [
    | inl (h, same) ↦
        rw (h, dup_table)
          (record {
            accounts = rw same (Accounts-eq (λ q. omega arith) s);
            src_uses = λ q. refl;
            src_tables = λ q. refl;
            stable = λ q l. omega arith;
            fresh = λ q z. omega arith;
            made = λ q l. absurd (omega arith);
            only = λ q z. omega arith;
            total = rw same (omega arith);
            sized = λ c e. absurd (some-ne-none c (sym e));
            short = λ e. omega (arith, alloc_pages-refused s.valid h);
            bytes = refl;
          })
    | inr (addr, h, unused, taken) ↦
        let g : Frames = (take_page f).1 in
        let m = runs addr g (more_room addr unused) (Accounts-eq (λ q. omega arith) taken) in
        rw (h, dup_table)
          (elim (Bool-cases (loop g).done) [
            | inl done ↦
                rw done (copied_TableDupped addr unused (loop g) g refl (spent addr h) m done)
            | inr failed ↦
                rw failed (undone_TableDupped addr unused (loop g) g refl (spent addr h) m failed)
          ])
  ]
    where
      spent :
          (addr : ℕ)
          → (alloc_pages f.pages (pos 0)).0 ≡ some addr
          → free_total (take_page f).1.pages + 1 ≡ free_total f.pages
      spent addr h = alloc_pages-total s.valid addr h

      more_room : (addr : ℕ) → others addr + uses n es addr ≡ 0 → HasRoom (add_use others addr) n es
      more_room addr unused q = elim (Bool-cases (others q + uses n es q == 0)) [
        | inl z ↦ ground arith
        | inr l ↦
            omega
              (arith, room q, one-unused (λ k. others k + uses n es k) addr q unused (ground arith))
      ]
