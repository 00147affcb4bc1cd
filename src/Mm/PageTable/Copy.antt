-- ===== src/Mm/PageTable/Copy.antt =====
-- `dup_pgtable_level` of mm/mmap.c: the loop over the entries of a table, at each level.
use mini_os.Prelude.{
  if◌then◌else◌, ℕ, zero, suc, ◌+◌, ◌*◌, ◌<◌, ◌≡◌, inl, inr, refl, ap, ◌∙◌, true, false, Option,
  none, some, [], ◌∷◌, arith, ◌==◌, ==_iff, Bool-cases, Option-cases,
}
use mini_os.Prelude.Int.{pos}
use mini_os.Mm.PageAlloc.{alloc_pages, get_page, virt_to_page}
use mini_os.Mm.PageTable.{Pte, Entry, Entries, Frames, take_page, pte_wrprotect, pte_write}
use mini_os.Mm.PageTable.Tree.{Dup, dup_table, after_table, share_page, dup_entries}
use mini_os.Mm.PageTable.Account.{
  Accounts, Accounts-eq, add_use, one, one_self, virt_to_page-IsHeld,
}
use mini_os.Mm.PageTable.Settle.{get_page-Accounts}
use mini_os.Mm.PageTable.Uses.{uses, slot_uses}
use mini_os.Mm.PageAlloc.Count.{free_total}
use mini_os.Mm.PageTable.Fork.{
  slot_size, slot_tables, HasRoom, Dupped, TableDupped, dup_table-TableDupped,
}

-- An entry that is not valid costs nothing.
skip_Dupped :
    (n : ℕ) (others : ℕ → ℕ) (f : Frames) (es : Entries n) (d : Dup n)
    → Dupped n others f es d
    → Dupped n others f (none ∷ es) (record d { dst = none ∷ d.dst; src = none ∷ d.src })
skip_Dupped n others f es d m = record {
  accounts = Accounts-eq (λ q. omega arith) m.accounts;
  src_uses = λ q. omega (arith, m.src_uses q);
  src_tables = λ q. omega (arith, m.src_tables q);
  stable = λ q l. omega (arith, m.stable q (omega arith));
  fresh = λ q z. omega (arith, m.fresh q (omega arith));
  made = λ q l. omega (arith, m.made q (omega arith));
  only = λ q z. omega (arith, m.only q (omega arith));
  total = omega (arith, m.total);
  sized = λ done. omega (arith, m.sized done);
  short = λ failed. omega (arith, m.short failed);
  bytes = m.bytes;
}

-- A page that is mapped has one user more, and both entries keep its address.
share_Dupped :
    (others : ℕ → ℕ) (f g : Frames) (pte both : Pte) (es : Entries 0) (d : Dup 0)
    → both.page ≡ pte.page
    → g.bytes ≡ f.bytes
    → free_total g.pages ≡ free_total f.pages
    → Dupped 0 (λ q. others q + 2 * one pte.page q) g es d
    → Dupped 0 others f
        (some pte ∷ es)
        (record d { dst = some both ∷ d.dst; src = some both ∷ d.src })
share_Dupped others f g pte both es d page same kept m = record {
  accounts = Accounts-eq (λ q. omega (arith, at q)) m.accounts;
  src_uses = λ q. omega (arith, m.src_uses q, at q);
  src_tables = λ q. omega (arith, m.src_tables q);
  stable = λ q l. omega (arith, m.stable q (omega arith), at q);
  fresh = λ q z. omega (arith, m.fresh q (omega arith), at q);
  made = λ q l. omega (arith, m.made q (omega arith));
  only = λ q z. omega (arith, m.only q (omega arith), at q);
  total = omega (arith, m.total, kept);
  sized = λ done. omega (arith, m.sized done);
  short = λ failed. omega (arith, m.short failed, kept);
  bytes = m.bytes ∙ same;
}
  where
    at : (q : ℕ) → one both.page q ≡ one pte.page q
    at q = ap (λ p. one p q) page

-- A table whose copy failed ends the run.
stop_Dupped :
    (n : ℕ) (others : ℕ → ℕ) (f : Frames) (table : ℕ) (below : Entries n) (es : Entries (suc n))
    (out : Option (Entry (suc n)) × Entry (suc n) × Frames)
    → out.0 ≡ none
    → out.1.0 ≡ table
    → TableDupped n (λ q. others q + one table q + uses (suc n) es q) f below out
    → Dupped
        (suc n)
        others
        f
        (some (table, below) ∷ es)
        (record { done = false; dst = []; src = some out.1 ∷ es; frames = out.2 })
stop_Dupped n others f table below es out failed same m = record {
  accounts =
      Accounts-eq (λ q. omega (arith, at q, ap (λ c. slot_uses (suc n) c q) failed)) m.accounts;
  src_uses = λ q. omega (arith, m.src_uses q, at q);
  src_tables = λ q. omega (arith, m.src_tables q, at q);
  stable = λ q l. omega arith;
  fresh = λ q z. omega arith;
  made = λ q l. absurd (omega arith);
  only = λ q z. omega arith;
  total = omega (arith, m.total, ap (slot_size (suc n)) failed);
  sized = λ done. absurd (ground arith);
  short = λ stopped. omega (arith, m.short failed);
  bytes = m.bytes;
}
  where
    at : (q : ℕ) → one out.1.0 q ≡ one table q
    at q = ap (λ p. one p q) same

-- The account before the rest of the run, behind a table that was copied.
abbrev behind :
    (n : ℕ) (others : ℕ → ℕ) (table : ℕ) (below : Entries n) (child : Entry (suc n)) (q : ℕ) → ℕ
behind n others table below child q =
    others q + one table q + uses n below q + slot_uses (suc n) (some child) q

module _ (n : ℕ) (others : ℕ → ℕ) (f : Frames) (table : ℕ) (below original : Entries n)
    (es : Entries (suc n)) (g : Frames) (child : Entry (suc n))
    (m : TableDupped n
      (λ q. others q + one table q + uses (suc n) es q)
      f
      below
      (some child, (table, original), g)) where
  after_room :
      HasRoom others (suc n) (some (table, below) ∷ es)
      → HasRoom (behind n others table original child) (suc n) es
  after_room room q =
      elim (Bool-cases (others q + one table q + uses (suc n) es q + uses n below q == 0)) [
        | inl z ↦ omega (arith, m.src_uses q, m.fresh q (ground arith), all_zero q z)
        | inr l ↦ omega (arith, room q, m.src_uses q, m.stable q (ground arith))
      ]
    where
      all_zero :
          (q : ℕ)
          → (others q + one table q + uses (suc n) es q + uses n below q == 0) ≡ true
          → others q + one table q + uses (suc n) es q + uses n below q ≡ 0
      all_zero q z = ground arith

  next_Dupped :
      (d : Dup (suc n))
      → Dupped (suc n) (behind n others table original child) g es d
      → Dupped
          (suc n)
          others
          f
          (some (table, below) ∷ es)
          (record d { dst = some child ∷ d.dst; src = some (table, original) ∷ d.src })
  next_Dupped d k = record {
    accounts = Accounts-eq (λ q. omega arith) k.accounts;
    src_uses = λ q. omega (arith, k.src_uses q, m.src_uses q);
    src_tables = λ q. omega (arith, k.src_tables q, m.src_tables q);
    stable =
        λ q l. omega (arith, m.stable q (omega arith), k.stable q (omega (arith, m.src_uses q)));
    fresh = λ q z. elim (Bool-cases (slot_uses (suc n) (some child) q == 0)) [
      | inl none_yet ↦ omega (
        arith,
        ground_zero q none_yet,
        k.fresh q (omega (arith, m.src_uses q, ground_zero q none_yet)),
      )
      | inr taken ↦ omega (arith, m.fresh q (omega arith), k.stable q (ground_pos q taken))
    ];
    made = λ q l. elim (Bool-cases (slot_tables (suc n) (some child) q == 0)) [
      | inl none_here ↦
          omega (arith, k.made q (omega (arith, ground_tables q none_here)), m.src_uses q)
      | inr here ↦ omega (arith, m.made q (ground_here q here))
    ];
    only = λ q z. elim (Bool-cases (slot_uses (suc n) (some child) q == 0)) [
      | inl none_yet ↦ omega (
        arith,
        ground_zero q none_yet,
        k.only q (omega (arith, m.src_uses q, ground_zero q none_yet)),
      )
      | inr taken ↦ omega (arith, m.only q (omega arith), k.stable q (ground_pos q taken))
    ];
    total = omega (arith, k.total, m.total);
    sized = λ done. omega (arith, k.sized done, m.sized child refl);
    short = λ failed. omega (arith, k.short failed, m.total, m.sized child refl);
    bytes = k.bytes ∙ m.bytes;
  }
    where
      ground_zero :
          (q : ℕ)
          → (slot_uses (suc n) (some child) q == 0) ≡ true
          → slot_uses (suc n) (some child) q ≡ 0
      ground_zero q e = (==_iff (slot_uses (suc n) (some child) q) 0).0 e

      ground_pos :
          (q : ℕ)
          → (slot_uses (suc n) (some child) q == 0) ≡ false
          → 0 < behind n others table original child q + uses (suc n) es q
      ground_pos q e = ground arith

      ground_tables :
          (q : ℕ)
          → (slot_tables (suc n) (some child) q == 0) ≡ true
          → slot_tables (suc n) (some child) q ≡ 0
      ground_tables q e = (==_iff (slot_tables (suc n) (some child) q) 0).0 e

      ground_here :
          (q : ℕ)
          → (slot_tables (suc n) (some child) q == 0) ≡ false
          → 0 < slot_tables (suc n) (some child) q
      ground_here q e = ground arith

dup_table-table :
    (n : ℕ) (loop : Frames → Dup n) (f : Frames) (table : ℕ) (es : Entries n)
    → (dup_table n loop f table es).1.0 ≡ table
unfolding dup_table
dup_table-table n loop f table es = elim (Option-cases (alloc_pages f.pages (pos 0)).0) [
  | inl h ↦ rw (h, dup_table)
  | inr (addr, h) ↦
      rw (h, dup_table)
        (elim (Bool-cases (loop (take_page f).1).done) [
          | inl done ↦ rw done
          | inr failed ↦ rw failed
        ])
]

after_table-Dupped :
    (n : ℕ) (others : ℕ → ℕ) (f : Frames) (table : ℕ) (below : Entries n) (es : Entries (suc n))
    (out : Option (Entry (suc n)) × Entry (suc n) × Frames) (rest : Frames → Dup (suc n))
    → HasRoom others (suc n) (some (table, below) ∷ es)
    → out.1.0 ≡ table
    → TableDupped n (λ q. others q + one table q + uses (suc n) es q) f below out
    → ((before : ℕ → ℕ) (g : Frames)
        → HasRoom before (suc n) es
        → Accounts (λ q. before q + uses (suc n) es q) g.pages
        → Dupped (suc n) before g es (rest g))
    → Dupped (suc n) others f (some (table, below) ∷ es) (after_table n out es rest)
unfolding after_table
after_table-Dupped n others f table below es (none, original, g) rest room same m runs =
    stop_Dupped n others f table below es (none, original, g) refl same m
after_table-Dupped n others f table below es (some child, (start, original), g) rest room same m
      runs =
    rw same (
      next_Dupped n others f table below original es g child (retable m) (rest g) (
        runs (behind n others table original child) g
          (after_room n others f table below original es g child (retable m) room)
          (Accounts-eq (λ q. omega arith) m.accounts)))
  where
    -- what the table was is not part of the account
    retable :
        TableDupped n
          (λ q. others q + one table q + uses (suc n) es q)
          f
          below
          (some child, (start, original), g)
        → TableDupped n
            (λ q. others q + one table q + uses (suc n) es q)
            f
            below
            (some child, (table, original), g)
    retable k = record {
      accounts = k.accounts;
      src_uses = k.src_uses;
      src_tables = k.src_tables;
      stable = k.stable;
      fresh = k.fresh;
      made = k.made;
      only = k.only;
      total = k.total;
      sized = k.sized;
      short = k.short;
      bytes = k.bytes;
    }

both_page : (pte : Pte) → (if pte_write pte then pte_wrprotect pte else pte).page ≡ pte.page
unfolding pte_wrprotect
both_page pte = ground arith

share_page-Dupped :
    (others : ℕ → ℕ) (f : Frames) (pte : Pte) (es : Entries 0) (rest : Frames → Dup 0)
    → HasRoom others 0 (some pte ∷ es)
    → Accounts (λ q. others q + uses 0 (some pte ∷ es) q) f.pages
    → ((before : ℕ → ℕ) (g : Frames)
        → HasRoom before 0 es
        → Accounts (λ q. before q + uses 0 es q) g.pages
        → Dupped 0 before g es (rest g))
    → Dupped 0 others f (some pte ∷ es) (share_page f pte (virt_to_page f.pages pte.page) es rest)
unfolding share_page get_page
share_page-Dupped others f pte es rest room s runs =
    let used : 0 < others pte.page + uses 0 (some pte ∷ es) pte.page =
      omega (arith, one_self pte.page) in
    let h = s.held pte.page used in
    let found =
      virt_to_page-IsHeld s pte.page (others pte.page + uses 0 (some pte ∷ es) pte.page) h in
    let got = get_page-Accounts pte.page s used (omega (arith, room pte.page)) in
    let g : Frames = record f { pages = get_page f.pages (some h.pfn) } in
    let m =
      runs (λ q. others q + 2 * one pte.page q) g (λ q. omega (arith, room q))
        (Accounts-eq (λ q. omega arith) (rw found at got)) in
    rw found (
      share_Dupped others f g pte (if pte_write pte then pte_wrprotect pte else pte) es (rest g)
        (both_page pte) refl refl m)

-- The loop of the copy: it adds one use to each page it shares and takes one new page for each
-- table it copies, whether it comes to the end or not.
pub dup_entries-Dupped :
    (n : ℕ) (others : ℕ → ℕ) (f : Frames) (es : Entries n)
    → HasRoom others n es
    → Accounts (λ q. others q + uses n es q) f.pages
    → Dupped n others f es (dup_entries n f es)
unfolding dup_entries
dup_entries-Dupped n others f [] room s = record {
  accounts = Accounts-eq (λ q. omega arith) s;
  src_uses = λ q. refl;
  src_tables = λ q. refl;
  stable = λ q l. omega arith;
  fresh = λ q z. omega arith;
  made = λ q l. absurd (omega arith);
  only = λ q z. omega arith;
  total = omega arith;
  sized = λ done. refl;
  short = λ failed. absurd (ground arith);
  bytes = refl;
}
dup_entries-Dupped zero others f (none ∷ es) room s =
    skip_Dupped zero others f es (dup_entries zero f es) (
      dup_entries-Dupped zero others f es (λ q. omega (arith, room q))
        (Accounts-eq (λ q. omega arith) s))
dup_entries-Dupped (suc n) others f (none ∷ es) room s =
    skip_Dupped (suc n) others f es (dup_entries (suc n) f es) (
      dup_entries-Dupped (suc n) others f es (λ q. omega (arith, room q))
        (Accounts-eq (λ q. omega arith) s))
dup_entries-Dupped zero others f (some pte ∷ es) room s =
    share_page-Dupped others f pte es (λ g. dup_entries zero g es) room s
      (λ before g r t. dup_entries-Dupped zero before g es r t)
dup_entries-Dupped (suc n) others f (some (table, below) ∷ es) room s =
    let loop : Frames → Dup n = λ g. dup_entries n g below in
    let before : ℕ → ℕ = λ q. others q + one table q + uses (suc n) es q in
    after_table-Dupped n others f table below es (dup_table n loop f table below)
      (λ g. dup_entries (suc n) g es) room (dup_table-table n loop f table below)
      (dup_table-TableDupped n before f table below (λ q. omega (arith, room q))
        (Accounts-eq (λ q. omega arith) s) loop
        (λ addr g r t. dup_entries-Dupped n (add_use before addr) g below r t))
      (λ before g r t. dup_entries-Dupped (suc n) before g es r t)
