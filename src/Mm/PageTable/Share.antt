-- ===== src/Mm/PageTable/Share.antt =====
-- `dup_pgtable_level` of mm/mmap.c: what the two address spaces map after the copy.
use mini_os.Prelude.{
  ℕ, zero, suc, ◌≡◌, ◌⊎◌, inl, inr, refl, sym, ap, ◌∙◌, Bool, true, false, Option, none, some, [],
  ◌∷◌, Bool-cases, Option-cases, get_or, length, if◌then◌else◌,
}
use mathlib.Core.Path.{subst}
use mathlib.Core.Bool.{true≢false}
use mathlib.Core.Option.{some-ne-none, some-injective}
use mini_os.Prelude.Int.{pos}
use mini_os.Mm.PageAlloc.{alloc_pages, get_page, virt_to_page}
use mini_os.Mm.PageTable.{
  Pte, Entry, Entries, Frames, pte_entries, index, find_pte, take_page, pte_wrprotect, pte_write,
}
use mini_os.Mm.PageTable.Tree.{
  Dup, dup_table, after_table, share_page, dup_entries, dup_pgtable, free_pgtable_level,
}
use mini_os.Mm.PageTable.Walk.{IsFull, length-IsFull}

-- The entry that both sides of a fork hold.
abbrev pub shared_pte : Pte → Pte
shared_pte pte = if pte_write pte then pte_wrprotect pte else pte

abbrev pub share : Option Pte → Option Pte
share none = none
share (some pte) = some (shared_pte pte)

-- What a walk finds behind an entry.
abbrev within : (n : ℕ) → Option (Entry n) → ℕ → Option Pte
within zero e va = e
within (suc n) e va = elim e [ none ↦ none | some (table, below) ↦ find_pte n below va ]

find_pte-within :
    (n : ℕ) (es : Entries n) (va : ℕ) → find_pte n es va ≡ within n (get_or es (index n va) none) va
unfolding find_pte
find_pte-within zero es va = refl
find_pte-within (suc n) es va = refl

-- The original's entry is now the shared one, or is as it was if the copy failed.
abbrev Kept : Bool → Option Pte → Option Pte → Type 0
Kept done before after = (after ≡ share before) ⊎ ((done ≡ false) × (after ≡ before))

abbrev EntryFull : (n : ℕ) → Option (Entry n) → Type 0
EntryFull zero e = Unit
EntryFull (suc n) none = Unit
EntryFull (suc n) (some (table, below)) = IsFull n below

abbrev AllFull : (n : ℕ) → Entries n → Type 0
AllFull n es = (i : ℕ) → EntryFull n (get_or es i none)

record Shape (n : ℕ) (es : Entries n) (d : Dup n) : Type 0 where
  src_length : length d.src ≡ length es
  dst_length : d.done ≡ true → length d.dst ≡ length es
  src_walk :
      (i va : ℕ) → Kept d.done (within n (get_or es i none) va) (within n (get_or d.src i none) va)
  dst_walk :
      d.done ≡ true
      → (i va : ℕ) → within n (get_or d.dst i none) va ≡ share (within n (get_or es i none) va)
  src_full : AllFull n es → AllFull n d.src
  dst_full : d.done ≡ true → AllFull n es → AllFull n d.dst

-- One entry that was gone through, before the rest of the run.
cons_Shape :
    (n : ℕ) (es : Entries n) (d : Dup n) (e s t : Option (Entry n))
    → ((va : ℕ) → within n s va ≡ share (within n e va))
    → ((va : ℕ) → within n t va ≡ share (within n e va))
    → (EntryFull n e → EntryFull n s × EntryFull n t)
    → Shape n es d
    → Shape n (e ∷ es) (record d { dst = t ∷ d.dst; src = s ∷ d.src })
cons_Shape n es d e s t to_src to_dst full h = record {
  src_length = ap suc h.src_length;
  dst_length = λ done. ap suc (h.dst_length done);
  src_walk = src;
  dst_walk = dst;
  src_full = λ all i. in_src i all;
  dst_full = λ done all i. in_dst i done all;
}
  where
    src :
        (i va : ℕ)
        → Kept d.done
            (within n (get_or (e ∷ es) i none) va)
            (within n (get_or (s ∷ d.src) i none) va)
    src zero va = inl (to_src va)
    src (suc i) va = h.src_walk i va

    dst :
        d.done ≡ true
        → (i va : ℕ)
        → within n (get_or (t ∷ d.dst) i none) va ≡ share (within n (get_or (e ∷ es) i none) va)
    dst done zero va = to_dst va
    dst done (suc i) va = h.dst_walk done i va

    in_src : (i : ℕ) → AllFull n (e ∷ es) → EntryFull n (get_or (s ∷ d.src) i none)
    in_src zero all = (full (all 0)).0
    in_src (suc i) all = h.src_full (λ j. all (suc j)) i

    in_dst : (i : ℕ) → d.done ≡ true → AllFull n (e ∷ es) → EntryFull n (get_or (t ∷ d.dst) i none)
    in_dst zero done all = (full (all 0)).1
    in_dst (suc i) done all = h.dst_full done (λ j. all (suc j)) i

-- A run that ends at an entry, which may have been changed below.
stop_Shape :
    (n : ℕ) (es : Entries n) (f : Frames) (e s : Option (Entry n))
    → ((va : ℕ) → Kept false (within n e va) (within n s va))
    → (EntryFull n e → EntryFull n s)
    → Shape n (e ∷ es) (record { done = false; dst = []; src = s ∷ es; frames = f })
stop_Shape n es f e s walk full = record {
  src_length = refl;
  dst_length = λ done. absurd (true≢false (sym done));
  src_walk = src;
  dst_walk = λ done. absurd (true≢false (sym done));
  src_full = λ all i. in_src i all;
  dst_full = λ done. absurd (true≢false (sym done));
}
  where
    src :
        (i va : ℕ)
        → Kept false (within n (get_or (e ∷ es) i none) va) (within n (get_or (s ∷ es) i none) va)
    src zero va = walk va
    src (suc i) va = inr (refl, refl)

    in_src : (i : ℕ) → AllFull n (e ∷ es) → EntryFull n (get_or (s ∷ es) i none)
    in_src zero all = full (all 0)
    in_src (suc i) all = all (suc i)

-- The same of a table.
pub record TableShape (n : ℕ) (es : Entries n)
    (out : Option (Entry (suc n)) × Entry (suc n) × Frames) : Type 0 where
  pub src_walk :
      (va : ℕ)
      → (find_pte n out.1.1 va ≡ share (find_pte n es va))
        ⊎ ((out.0 ≡ none) × (find_pte n out.1.1 va ≡ find_pte n es va))
  pub dst_walk :
      (child : Entry (suc n))
      → out.0 ≡ some child
      → (va : ℕ) → find_pte n child.1 va ≡ share (find_pte n es va)
  pub src_full : IsFull n es → IsFull n out.1.1
  pub dst_full : (child : Entry (suc n)) → out.0 ≡ some child → IsFull n es → IsFull n child.1

full_of : (n : ℕ) (es : Entries n) → length es ≡ pte_entries → AllFull n es → IsFull n es
full_of zero es l all = l
full_of (suc n) es l all = (l, λ i table below e. at (get_or es i none) table below (all i) e)
  where
    at :
        (o : Option (Entry (suc n))) (table : ℕ) (below : Entries n)
        → EntryFull (suc n) o
        → o ≡ some (table, below)
        → IsFull n below
    at o table below full e = subst (λ x. EntryFull (suc n) x) e full

all_of : (n : ℕ) (es : Entries n) → IsFull n es → AllFull n es
all_of zero es full i = tt
all_of (suc n) es (l, full) i = at (get_or es i none) refl
  where
    at : (o : Option (Entry (suc n))) → get_or es i none ≡ o → EntryFull (suc n) o
    at none e = tt
    at (some (table, below)) e = full i table below e

module _ (n : ℕ) (es : Entries n) (d : Dup n) (h : Shape n es d) where
  loop_src : (va : ℕ) → Kept d.done (find_pte n es va) (find_pte n d.src va)
  loop_src va =
      rw (find_pte-within n es va, find_pte-within n d.src va) (h.src_walk (index n va) va)

  loop_src_full : IsFull n es → IsFull n d.src
  loop_src_full full =
      full_of n d.src (h.src_length ∙ length-IsFull n es full) (h.src_full (all_of n es full))

  loop_dst : d.done ≡ true → (va : ℕ) → find_pte n d.dst va ≡ share (find_pte n es va)
  loop_dst done va =
      rw (find_pte-within n es va, find_pte-within n d.dst va) (h.dst_walk done (index n va) va)

  loop_dst_full : d.done ≡ true → IsFull n es → IsFull n d.dst
  loop_dst_full done full =
      full_of n d.dst (h.dst_length done ∙ length-IsFull n es full)
        (h.dst_full done (all_of n es full))

  done_TableShape :
      (addr table : ℕ) (g : Frames)
      → d.done ≡ true
      → TableShape n es (some (addr, d.dst), (table, d.src), g)
  done_TableShape addr table g done = record {
    src_walk = λ va. elim (loop_src va) [
      | inl e ↦ inl e
      | inr (failed, e) ↦ absurd (true≢false (sym done ∙ failed))
    ];
    dst_walk = λ child is va.
        ap (λ c. find_pte n c.1 va) (sym (some-injective (addr, d.dst) child is))
        ∙ loop_dst done va;
    src_full = loop_src_full;
    dst_full = λ child is full.
        subst (λ c. IsFull n c.1) (some-injective (addr, d.dst) child is) (loop_dst_full done full);
  }

  failed_TableShape : (table : ℕ) (g : Frames) → TableShape n es (none, (table, d.src), g)
  failed_TableShape table g = record {
    src_walk = λ va. elim (loop_src va) [ inl e ↦ inl e | inr (failed, e) ↦ inr (refl, e) ];
    dst_walk = λ child is. absurd (some-ne-none child (sym is));
    src_full = loop_src_full;
    dst_full = λ child is. absurd (some-ne-none child (sym is));
  }

dup_table-TableShape :
    (n : ℕ) (loop : Frames → Dup n) (f : Frames) (table : ℕ) (es : Entries n)
    → ((g : Frames) → Shape n es (loop g))
    → TableShape n es (dup_table n loop f table es)
unfolding dup_table
dup_table-TableShape n loop f table es runs = elim (Option-cases (alloc_pages f.pages (pos 0)).0) [
  | inl h ↦
      rw (h, dup_table)
        (record {
          src_walk = λ va. inr (refl, refl);
          dst_walk = λ child is. absurd (some-ne-none child (sym is));
          src_full = λ full. full;
          dst_full = λ child is. absurd (some-ne-none child (sym is));
        })
  | inr (addr, h) ↦
      let g : Frames = (take_page f).1 in
      rw (h, dup_table)
        (elim (Bool-cases (loop g).done) [
          | inl done ↦
              rw done (done_TableShape n es (loop g) (runs g) addr table (loop g).frames done)
          | inr failed ↦ rw failed (
              failed_TableShape n es (loop g) (runs g) table
                (free_pgtable_level n (loop g).frames (addr, (loop g).dst)))
        ])
]

after_table-Shape :
    (n : ℕ) (table : ℕ) (below : Entries n) (es : Entries (suc n))
    (out : Option (Entry (suc n)) × Entry (suc n) × Frames) (rest : Frames → Dup (suc n))
    → TableShape n below out
    → ((g : Frames) → Shape (suc n) es (rest g))
    → Shape (suc n) (some (table, below) ∷ es) (after_table n out es rest)
unfolding after_table
after_table-Shape n table below es (none, (start, original), f) rest m runs =
    stop_Shape (suc n) es f (some (table, below)) (some (start, original))
      (λ va. elim (m.src_walk va) [ inl e ↦ inl e | inr (failed, e) ↦ inr (refl, e) ]) m.src_full
after_table-Shape n table below es (some (addr, copy), (start, original), f) rest m runs =
    cons_Shape (suc n) es (rest f) (some (table, below)) (some (start, original))
      (some (addr, copy))
      (λ va. elim (m.src_walk va) [
        | inl e ↦ e
        | inr (failed, e) ↦ absurd (some-ne-none (addr, copy) failed)
      ])
      (m.dst_walk (addr, copy) refl) (λ full. (m.src_full full, m.dst_full (addr, copy) refl full))
      (runs f)

share_page-Shape :
    (f : Frames) (pte : Pte) (page : Option ℕ) (es : Entries 0) (rest : Frames → Dup 0)
    → ((g : Frames) → Shape 0 es (rest g))
    → Shape 0 (some pte ∷ es) (share_page f pte page es rest)
unfolding share_page
share_page-Shape f pte none es rest runs =
    stop_Shape 0 es f (some pte) (some pte) (λ va. inr (refl, refl)) (λ full. full)
share_page-Shape f pte (some page) es rest runs =
    let g : Frames = record f { pages = get_page f.pages (some page) } in
    cons_Shape 0 es (rest g) (some pte) (some (shared_pte pte)) (some (shared_pte pte)) (λ va. refl)
      (λ va. refl) (λ full. (full, full)) (runs g)

nothing : (n va : ℕ) → within n none va ≡ share (within n none va)
nothing zero va = refl
nothing (suc n) va = refl

dup_entries-Shape : (n : ℕ) (f : Frames) (es : Entries n) → Shape n es (dup_entries n f es)
unfolding dup_entries
dup_entries-Shape n f [] = record {
  src_length = refl;
  dst_length = λ done. refl;
  src_walk = λ i va. inl (nothing n va);
  dst_walk = λ done i va. nothing n va;
  src_full = λ all. all;
  dst_full = λ done all. all;
}
dup_entries-Shape zero f (none ∷ es) =
    cons_Shape zero es (dup_entries zero f es) none none none (λ va. refl) (λ va. refl)
      (λ full. (full, full)) (dup_entries-Shape zero f es)
dup_entries-Shape (suc n) f (none ∷ es) =
    cons_Shape (suc n) es (dup_entries (suc n) f es) none none none (λ va. refl) (λ va. refl)
      (λ full. (full, full)) (dup_entries-Shape (suc n) f es)
dup_entries-Shape zero f (some pte ∷ es) =
    share_page-Shape f pte (virt_to_page f.pages pte.page) es (λ g. dup_entries zero g es)
      (λ g. dup_entries-Shape zero g es)
dup_entries-Shape (suc n) f (some (table, below) ∷ es) =
    after_table-Shape n table below es (dup_table n (λ g. dup_entries n g below) f table below)
      (λ g. dup_entries (suc n) g es)
      (dup_table-TableShape n (λ g. dup_entries n g below) f table below
        (λ g. dup_entries-Shape n g below))
      (λ g. dup_entries-Shape (suc n) g es)

pub dup_pgtable-TableShape :
    (f : Frames) (table : ℕ) (es : Entries 2) → TableShape 2 es (dup_pgtable f (table, es))
unfolding dup_pgtable
dup_pgtable-TableShape f table es =
    dup_table-TableShape 2 (λ g. dup_entries 2 g es) f table es (λ g. dup_entries-Shape 2 g es)
