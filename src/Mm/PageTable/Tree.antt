-- ===== src/Mm/PageTable/Tree.antt =====
-- mm/mmap.c: trees of page tables, which are given back with their pages and copied for a fork.
use mini_os.Prelude.{ℕ, zero, suc, Bool, true, false, Option, none, some, [], ◌∷◌, if◌then◌else◌}
use mini_os.Mm.PageAlloc.{get_page, virt_to_page}
use mini_os.Mm.PageTable.{
  Pte, Entry, Entries, Frames, pte_write, pte_wrprotect, take_page, put_frame, free_frame,
}

-- The loop of `free_pgtable_level` over the entries of a table.
unfoldable pub free_entries : (n : ℕ) → Frames → Entries n → Frames
free_entries n f [] = f
free_entries zero f (none ∷ es) = free_entries zero f es
free_entries zero f (some pte ∷ es) = free_entries zero (put_frame f pte.page) es
free_entries (suc n) f (none ∷ es) = free_entries (suc n) f es
free_entries (suc n) f (some (table, below) ∷ es) =
    free_entries (suc n) (free_frame (free_entries n f below) table) es

unfoldable pub free_pgtable_level : (n : ℕ) → Frames → Entry (suc n) → Frames
free_pgtable_level n f (table, es) = free_frame (free_entries n f es) table

-- What a run of the loop of `dup_pgtable_level` leaves: whether it came to the end, the entries
-- that it wrote in the copy, and the entries of the original.
pub record Dup (n : ℕ) : Type 0 where
  pub done : Bool
  pub dst : Entries n
  pub src : Entries n
  pub frames : Frames

-- `dup_pgtable_level` on a table, given the loop over its entries. The copy, if there is one, and
-- the original with the entries that the loop left.
unfoldable pub dup_table :
    (n : ℕ)
    → (Frames → Dup n)
    → Frames
    → (table : ℕ) (es : Entries n) → Option (Entry (suc n)) × Entry (suc n) × Frames
dup_table n loop f table es =
    let (page, f') = take_page f in
    elim page [
      | none ↦ (none, (table, es), f')
      | some addr ↦
          let d = loop f' in
          if d.done
          then (some (addr, d.dst), (table, d.src), d.frames)
          else (none, (table, d.src), free_pgtable_level n d.frames (addr, d.dst))
    ]

-- A page that is mapped is shared: both entries are read-only, and it has one user more.
unfoldable pub share_page : Frames → Pte → Option ℕ → Entries 0 → (Frames → Dup 0) → Dup 0
share_page f pte none es rest = record { done = false; dst = []; src = some pte ∷ es; frames = f }
share_page f pte (some page) es rest =
    let both = if pte_write pte then pte_wrprotect pte else pte in
    let d = rest (record f { pages = get_page f.pages (some page) }) in
    record d { dst = some both ∷ d.dst; src = some both ∷ d.src }

-- The loop goes on behind a table that was copied, and ends where the copy failed.
unfoldable pub after_table :
    (n : ℕ)
    → Option (Entry (suc n)) × Entry (suc n) × Frames
    → Entries (suc n)
    → (Frames → Dup (suc n))
    → Dup (suc n)
after_table n (none, original, f) es rest = record {
  done = false;
  dst = [];
  src = some original ∷ es;
  frames = f;
}
after_table n (some child, original, f) es rest =
    let d = rest f in record d { dst = some child ∷ d.dst; src = some original ∷ d.src }

-- The loop over the entries from some place on.
unfoldable pub dup_entries : (n : ℕ) → Frames → Entries n → Dup n
unfolding share_page after_table
dup_entries n f [] = record { done = true; dst = []; src = []; frames = f }
dup_entries zero f (none ∷ es) =
    let d = dup_entries zero f es in record d { dst = none ∷ d.dst; src = none ∷ d.src }
dup_entries zero f (some pte ∷ es) =
    share_page f pte (virt_to_page f.pages pte.page) es (λ g. dup_entries zero g es)
dup_entries (suc n) f (none ∷ es) =
    let d = dup_entries (suc n) f es in record d { dst = none ∷ d.dst; src = none ∷ d.src }
dup_entries (suc n) f (some (table, below) ∷ es) =
    after_table n (dup_table n (λ g. dup_entries n g below) f table below) es
      (λ g. dup_entries (suc n) g es)

unfoldable pub dup_pgtable : Frames → Entry 3 → Option (Entry 3) × Entry 3 × Frames
dup_pgtable f (table, es) = dup_table 2 (λ g. dup_entries 2 g es) f table es
