-- ===== src/Mm/PageTable/Isolation.antt =====
-- Fork and copy on write of mm/mmap.c together: two address spaces and what each sees of the other.
use mini_os.Prelude.{
  ℕ, ◌+◌, ◌^◌, ◌≤◌, ◌<◌, ◌≡◌, ◌≢◌, ◌⊎◌, inl, inr, refl, sym, ap, ◌∙◌, true, Option, none, some,
  arith, ◌==◌, Bool-cases,
}
use mathlib.Core.Path.{subst}
use mathlib.Core.Option.{some-ne-none, some-injective}
use mini_os.Mm.PageTable.{Pte, Entry, Entries, Frames, find_pte, pte_write, pte_wrprotect}
use mini_os.Mm.PageTable.Tree.{dup_entries, dup_pgtable, free_pgtable_level}
use mini_os.Mm.PageTable.Account.{Accounts, Accounts-eq, add_use, one, one_self}
use mini_os.Mm.PageTable.Walk.{IsFull}
use mini_os.Mm.PageTable.Uses.{uses, slot_uses}
use mini_os.Mm.PageTable.Space.{owners, IsPrivate, IsSpace, uses-find_pte}
use mini_os.Mm.PageAlloc.Count.{free_total}
use mini_os.Mm.PageTable.Release.{
  tables, tables-le-uses, size, IsTree, IsBounded, IsShared, free_pgtable_level-Accounts,
  free_pgtable_level-total,
}
use mini_os.Mm.PageTable.Fork.{slot_size, slot_tables, HasRoom, TableDupped, dup_table-TableDupped}
use mini_os.Mm.PageTable.Copy.{dup_entries-Dupped}
use mini_os.Mm.PageTable.Share.{share, shared_pte, TableShape, dup_pgtable-TableShape}

-- Where an address space is in order, with the uses of a second one counted among the others', a
-- page that it maps writable is mapped nowhere by the second one.
pub IsSpace-apart :
    (others : ℕ → ℕ) (f : Frames) (es other : Entries 2)
    → IsFull 2 other
    → IsSpace (λ q. others q + uses 2 other q) f es
    → (va : ℕ) (pte : Pte) → find_pte 2 es va ≡ some pte
    → pte_write pte ≡ true
    → (va' : ℕ) (pte' : Pte) → find_pte 2 other va' ≡ some pte'
    → pte'.page ≢ pte.page
IsSpace-apart others f es other full s va pte e w va' pte' e' same = omega (
  arith,
  s.private va pte e w,
  uses-find_pte 2 es va pte s.full e,
  ap (uses 2 other) same,
  uses-find_pte 2 other va' pte' full e',
)

-- The copy at `addr`: both sides map the same pages, and neither may write.
pub record Forked (others : ℕ → ℕ) (f : Frames) (es : Entries 2) (addr : ℕ)
    (copy original : Entries 2) (f' : Frames) : Type 0 where
  pub unused : owners others 2 es addr ≡ 0
  pub parent : IsSpace (λ q. add_use others addr q + uses 2 copy q) f' original
  pub child : IsSpace (λ q. add_use others addr q + uses 2 original q) f' copy
  pub walks :
      (va : ℕ)
      → (find_pte 2 original va ≡ share (find_pte 2 es va))
        × (find_pte 2 copy va ≡ share (find_pte 2 es va))
  pub parent_uses : (q : ℕ) → uses 2 original q ≡ uses 2 es q
  -- the copy took a page for each table of the original and for its root, and nothing else
  pub spent : free_total f'.pages + size 2 es + 1 ≡ free_total f.pages
  pub bytes : f'.bytes ≡ f.bytes

-- The copy failed: every page that it took is free again, and the original maps the same pages.
pub record NotForked (others : ℕ → ℕ) (f : Frames) (es original : Entries 2) (f' : Frames)
    : Type 0 where
  pub space : IsSpace others f' original
  pub walks :
      (va : ℕ)
      → (find_pte 2 original va ≡ share (find_pte 2 es va))
        ⊎ (find_pte 2 original va ≡ find_pte 2 es va)
  pub parent_uses : (q : ℕ) → uses 2 original q ≡ uses 2 es q
  pub free : free_total f'.pages ≡ free_total f.pages
  -- there were not enough free pages for its tables
  pub short : free_total f.pages ≤ size 2 es
  pub bytes : f'.bytes ≡ f.bytes

abbrev pub ForkOutcome :
    (others : ℕ → ℕ) → Frames → Entries 2 → Option (Entry 3) × Entry 3 × Frames → Type 0
ForkOutcome others f es (none, (table, original), f') = NotForked others f es original f'
ForkOutcome others f es (some (addr, copy), (table, original), f') =
    Forked others f es addr copy original f'

pub ForkOutcome-some :
    {others : ℕ → ℕ} {f : Frames} {es : Entries 2} (out : Option (Entry 3) × Entry 3 × Frames)
    (child : Entry 3)
    → ForkOutcome others f es out
    → out.0 ≡ some child
    → Forked others f es child.0 child.1 out.1.1 out.2
ForkOutcome-some (none, (table, original), f') child h e = absurd (some-ne-none child (sym e))
ForkOutcome-some {others} {f} {es} (some c, (table, original), f') child h e =
    subst (λ x. Forked others f es x.0 x.1 original f') (some-injective c child e) h

shared_not_writable : (pte : Pte) → pte_write (shared_pte pte) ≡ true → ⊥
unfolding pte_write pte_wrprotect
shared_not_writable pte w = ground arith

share_not_writable : (o : Option Pte) (pte : Pte) → share o ≡ some pte → pte_write pte ≡ true → ⊥
share_not_writable none pte is w = absurd (some-ne-none pte (sym is))
share_not_writable (some old) pte is w =
    shared_not_writable old (ap pte_write (some-injective (shared_pte old) pte is) ∙ w)

share-IsPrivate :
    (others : ℕ → ℕ) (es after : Entries 2)
    → ((va : ℕ) → find_pte 2 after va ≡ share (find_pte 2 es va))
    → IsPrivate others 2 after
share-IsPrivate others es after walks va pte e w =
    absurd (share_not_writable (find_pte 2 es va) pte (sym (walks va) ∙ e) w)

-- As before the fork: each page that was used has its count, and as many pages are free.
abbrev pub IsUndone : (others : ℕ → ℕ) → Frames → Entries 2 → Frames → Type 0
IsUndone others f es f' =
    Accounts (owners others 2 es) f'.pages × (free_total f'.pages ≡ free_total f.pages)

module _ {others : ℕ → ℕ} {f : Frames} {es : Entries 2} (s : IsSpace others f es)
    (room : HasRoom others 2 es) where
  forked :
      (out : Option (Entry 3) × Entry 3 × Frames)
      → TableDupped 2 others f es out
      → TableShape 2 es out
      → ForkOutcome others f es out
  forked (none, (table, original), f') m h = record {
    space = record {
      full = h.src_full s.full;
      accounts = Accounts-eq (λ q. omega arith) m.accounts;
      bounded = λ q. omega (arith, s.bounded q, m.src_uses q);
      private = λ va pte e w. elim (h.src_walk va) [
        | inl shared ↦ absurd (share_not_writable (find_pte 2 es va) pte (sym shared ∙ e) w)
        | inr (failed, same) ↦ omega (arith, s.private va pte (sym same ∙ e) w, m.src_uses pte.page)
      ];
    };
    walks = λ va. elim (h.src_walk va) [ inl e ↦ inl e | inr (failed, e) ↦ inr e ];
    parent_uses = m.src_uses;
    free = omega (arith, m.total);
    short = m.short refl;
    bytes = m.bytes;
  }
  forked (some (addr, copy), (table, original), f') m h = record {
    unused = m.made addr (omega (arith, one_self addr));
    parent = record {
      full = h.src_full s.full;
      accounts = Accounts-eq (λ q. omega arith) m.accounts;
      bounded = λ q. small q;
      private = share-IsPrivate (λ q. add_use others addr q + uses 2 copy q) es original src;
    };
    child = record {
      full = h.dst_full (addr, copy) refl s.full;
      accounts = Accounts-eq (λ q. omega arith) m.accounts;
      bounded = λ q. omega (arith, small q);
      private =
          share-IsPrivate (λ q. add_use others addr q + uses 2 original q) es copy
            (h.dst_walk (addr, copy) refl);
    };
    walks = λ va. (src va, h.dst_walk (addr, copy) refl va);
    parent_uses = m.src_uses;
    spent = omega (arith, m.total, m.sized (addr, copy) refl);
    bytes = m.bytes;
  }
    where
      src : (va : ℕ) → find_pte 2 original va ≡ share (find_pte 2 es va)
      src va = elim (h.src_walk va) [
        | inl e ↦ e
        | inr (failed, e) ↦ absurd (some-ne-none (addr, copy) failed)
      ]

      small : (q : ℕ) → add_use others addr q + uses 2 copy q + uses 2 original q < 2 ^ 31
      small q = elim (Bool-cases (others q + uses 2 es q == 0)) [
        | inl z ↦
            let none_yet : others q + uses 2 es q ≡ 0 = ground arith in
            omega (arith, none_yet, m.fresh q none_yet, m.src_uses q)
        | inr l ↦
            let used : 0 < others q + uses 2 es q = ground arith in
            omega (arith, m.stable q used, room q, m.src_uses q)
      ]

  -- Where the address space is in order and no page would reach 2^31 uses, the copy of the page
  -- tables for a fork uses each page for the parent as often as before and changes no byte of a
  -- page. Where it is made, both address spaces are in order, the child's root was unused before,
  -- each address maps in both to the page it mapped to before, write-protected, and the free pages
  -- are fewer by one for each table of the parent and one for the root. It fails only where the
  -- free pages are not more than the tables below the root; then the parent's address space is in
  -- order, each of its addresses maps as before or write-protected, and as many pages are free as
  -- before.
  pub dup_pgtable-ForkOutcome : (table : ℕ) → ForkOutcome others f es (dup_pgtable f (table, es))
  unfolding dup_pgtable
  dup_pgtable-ForkOutcome table =
      forked (dup_pgtable f (table, es))
        (dup_table-TableDupped 2 others f table es room s.accounts (λ g. dup_entries 2 g es)
          (λ addr g r t. dup_entries-Dupped 2 (add_use others addr) g es r t))
        (dup_pgtable-TableShape f table es)

  -- What is known of the copy when it is given back at once.
  module _ (out : Option (Entry 3) × Entry 3 × Frames) (child : Entry 3)
      (m : TableDupped 2 others f es out) (e : out.0 ≡ some child) where
    copy_uses : (q : ℕ) → slot_uses 3 out.0 q ≡ one child.0 q + uses 2 child.1 q
    copy_uses q = ap (λ c. slot_uses 3 c q) e

    copy_tables : (q : ℕ) → slot_tables 3 out.0 q ≡ one child.0 q + tables 2 child.1 q
    copy_tables q = ap (λ c. slot_tables 3 c q) e

    root_unused : owners others 2 es child.0 ≡ 0
    root_unused = m.made child.0 (omega (arith, copy_tables child.0, one_self child.0))

    root_alone : owners others 2 es child.0 + uses 2 child.1 child.0 ≡ 0
    root_alone =
        omega (arith, root_unused, m.fresh child.0 root_unused, copy_uses child.0, one_self child.0)

    copy-IsTree : IsTree (add_use (owners others 2 es) child.0) 2 child.1
    copy-IsTree q l =
        let z = m.made q (omega (arith, copy_tables q)) in
        omega (arith, z, m.fresh q z, copy_uses q, tables-le-uses 2 child.1 q)

    copy-IsBounded : IsBounded (add_use (owners others 2 es) child.0) 2 child.1
    copy-IsBounded q = elim (Bool-cases (others q + uses 2 es q == 0)) [
      | inl z ↦
          let none_yet : others q + uses 2 es q ≡ 0 = ground arith in
          omega (arith, none_yet, m.fresh q none_yet, copy_uses q)
      | inr l ↦
          let some_yet : 0 < others q + uses 2 es q = ground arith in
          omega (arith, m.stable q some_yet, copy_uses q, room q)
    ]

    copy-IsShared : IsShared (add_use (owners others 2 es) child.0) 2 child.1
    copy-IsShared q z = omega (arith, m.only q (omega arith), copy_uses q, copy_tables q)

    copy-Accounts :
        Accounts (λ q. add_use (owners others 2 es) child.0 q + uses 2 child.1 q) out.2.pages
    copy-Accounts = Accounts-eq (λ q. omega (arith, copy_uses q, m.src_uses q)) m.accounts

    release : IsUndone others f es (free_pgtable_level 2 out.2 child)
    release = (
      free_pgtable_level-Accounts 2 (owners others 2 es) out.2 child.0 child.1 copy-IsTree
          copy-IsBounded root_alone copy-Accounts,
      omega (
        arith,
        free_pgtable_level-total 2 (owners others 2 es) out.2 child.0 child.1 copy-IsTree
            copy-IsBounded copy-IsShared root_alone copy-Accounts,
        m.total,
        ap (slot_size 3) e,
      ),
    )

  -- Where the address space is in order, no page would reach 2^31 uses and a fork copies the page
  -- tables, to give the copy back at once leaves each page that was used with the count that it had
  -- before the fork, and as many free pages as before: no table is leaked and no page is freed
  -- twice.
  pub free_pgtable_level-dup_pgtable :
      (table : ℕ) (child : Entry 3)
      → (dup_pgtable f (table, es)).0 ≡ some child
      → IsUndone others f es (free_pgtable_level 2 (dup_pgtable f (table, es)).2 child)
  unfolding dup_pgtable
  free_pgtable_level-dup_pgtable table child e =
      release (dup_pgtable f (table, es)) child
        (dup_table-TableDupped 2 others f table es room s.accounts (λ g. dup_entries 2 g es)
          (λ addr g r t. dup_entries-Dupped 2 (add_use others addr) g es r t))
        e
