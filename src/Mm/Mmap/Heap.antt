-- ===== src/Mm/Mmap/Heap.antt =====
-- `do_brk` of mm/mmap.c: what becomes of the heap and of the other areas.
use mini_os.Prelude.{
  ℕ, ◌+◌, ◌-◌, ◌≤◌, ◌<◌, ◌≡◌, ◌≢◌, true, false, not, ◌&&◌, ◌||◌, Option, none, some, List, [], ◌∷◌,
  refl, arith, ltb, leb, ◌==◌, if◌then◌else◌, Bool-cases, inl, inr,
}
use mini_os.Mm.Mmap.{VmAreaStruct, MmStruct, page_up, page_size, word, stack_limit}
use mini_os.Mm.Mmap.Areas.{IsSorted, flags_at, flags_at_below, IsSorted-lower}
use mini_os.Mm.Mmap.Insert.{Placed, placed, low_start, overlaps, insert_vma-Placed}
use mini_os.Mm.Mmap.Search.{page_up_bounds}
use mini_os.Mm.Mmap.Map.{in_range}
use mini_os.Mm.Mmap.Brk.{
  find_heap_vma, set_heap_end, remove_heap, vma_record, meets_next, heap_flags, grow_heap,
  shrink_heap, do_brk,
}

-- `h` is the first area of the list that starts at `s`, and `next` is behind it.
pub data HeapIn (s : ℕ) (h : VmAreaStruct) (next : List VmAreaStruct)
    : List VmAreaStruct → Type 0 where
  here : h.vm_start ≡ s → HeapIn s h next (h ∷ next)
  behind :
      (v : VmAreaStruct) (vs : List VmAreaStruct)
      → (v.vm_start == s) ≡ false
      → HeapIn s h next vs
      → HeapIn s h next (v ∷ vs)

-- The areas with the heap, now `[s, end)` with the flags `f`, which ended at `old`.
abbrev pub heap_view : (s end old f : ℕ) → List VmAreaStruct → ℕ → Option ℕ
heap_view s end old f vs a =
    if in_range s end a then some f else if in_range s old a then none else flags_at vs a

heap_above :
    {s : ℕ} {h : VmAreaStruct} {next vs : List VmAreaStruct} {low : ℕ}
    → HeapIn s h next vs
    → IsSorted low vs
    → (low ≤ s) × (s < h.vm_end)
heap_above (here e) s = omega arith
heap_above (behind v vs e i) s = omega (arith, heap_above i s.2, s.1)

heap_start :
    {s : ℕ} {h : VmAreaStruct} {next vs : List VmAreaStruct} → HeapIn s h next vs → h.vm_start ≡ s
heap_start (here e) = e
heap_start (behind v vs e i) = heap_start i

set_heap_end_lem :
    {s : ℕ} {h : VmAreaStruct} {next vs : List VmAreaStruct} (low end : ℕ)
    → HeapIn s h next vs
    → IsSorted low vs
    → s < end
    → meets_next end next ≡ false
    → IsSorted low (set_heap_end s end vs)
      × ((a : ℕ) → flags_at (set_heap_end s end vs) a ≡ heap_view s end h.vm_end h.vm_flags vs a)
set_heap_end_lem {s} {h} {next} low end (here e) t l m =
    let found : (h.vm_start == s) ≡ true = ground arith in
    rw found (
      (t.0, omega (arith, e), later next t.2 m),
      λ a. ground (arith, flags_at_below h.vm_end a next),
    )
  where
    later :
        (ns : List VmAreaStruct)
        → IsSorted h.vm_end ns
        → meets_next end ns ≡ false
        → IsSorted end ns
    later [] t m = omega arith
    later (n ∷ ns) t m = (ground arith, t.1, t.2)
set_heap_end_lem {s} {h} {next} low end (behind v vs e i) t l m =
    let (sorted, view) = set_heap_end_lem v.vm_end end i t.2 l m in
    let above = heap_above i t.2 in
    rw e ((t.0, t.1, sorted), λ a. ground (arith, view a, above, t.0, t.1))

remove_heap_lem :
    {s : ℕ} {h : VmAreaStruct} {next vs : List VmAreaStruct} (low : ℕ)
    → HeapIn s h next vs
    → IsSorted low vs
    → IsSorted low (remove_heap s vs)
      × ((a : ℕ) → flags_at (remove_heap s vs) a ≡ heap_view s s h.vm_end h.vm_flags vs a)
remove_heap_lem {s} {h} {next} low (here e) t =
    let found : (h.vm_start == s) ≡ true = ground arith in
    rw found (
      IsSorted-lower h.vm_end low next t.2 (omega arith),
      λ a. ground (arith, flags_at_below h.vm_end a next),
    )
remove_heap_lem {s} {h} {next} low (behind v vs e i) t =
    let (sorted, view) = remove_heap_lem v.vm_end i t.2 in
    let above = heap_above i t.2 in
    rw e ((t.0, t.1, sorted), λ a. ground (arith, view a, above, t.0, t.1))

-- What `find_heap_vma` answers.
pub data HeapFound (s : ℕ) (vs : List VmAreaStruct)
    : Option (VmAreaStruct × List VmAreaStruct) → Type 0 where
  heap :
      (h : VmAreaStruct) (next : List VmAreaStruct)
      → HeapIn s h next vs
      → HeapFound s vs (some (h, next))
  no_heap : HeapFound s vs none

find_heap_vma-HeapFound : (s : ℕ) (vs : List VmAreaStruct) → HeapFound s vs (find_heap_vma s vs)
unfolding find_heap_vma
find_heap_vma-HeapFound s [] = no_heap
find_heap_vma-HeapFound s (v ∷ vs) = elim (Bool-cases (v.vm_start == s)) [
  | inl e ↦ rw e (heap v vs (here (ground arith)))
  | inr e ↦ rw e (further e (find_heap_vma-HeapFound s vs))
]
  where
    further :
        (v.vm_start == s) ≡ false
        → {o : Option (VmAreaStruct × List VmAreaStruct)} → HeapFound s vs o
        → HeapFound s (v ∷ vs) o
    further e (heap h next i) = heap h next (behind v vs e i)
    further e no_heap = no_heap

heap_flags_at :
    {s : ℕ} {h : VmAreaStruct} {next vs : List VmAreaStruct} (low a : ℕ)
    → HeapIn s h next vs
    → IsSorted low vs
    → in_range s h.vm_end a ≡ true
    → flags_at vs a ≡ some h.vm_flags
heap_flags_at low a (here e) t r = ground arith
heap_flags_at low a (behind v vs e i) t r =
    ground (arith, heap_flags_at v.vm_end a i t.2 r, heap_above i t.2)

-- The area behind the heap's begins where the heap's ends, or above.
meets_next_below :
    {s : ℕ} {h : VmAreaStruct} {next vs : List VmAreaStruct} (low end : ℕ)
    → HeapIn s h next vs
    → IsSorted low vs
    → end ≤ h.vm_end
    → meets_next end next ≡ false
meets_next_below {next = next} low end (here e) t l = from_first next t.2 l
  where
    from_first :
        {low : ℕ} (ns : List VmAreaStruct) → IsSorted low ns → end ≤ low → meets_next end ns ≡ false
    from_first [] t l = refl
    from_first (n ∷ ns) t l = ground arith
meets_next_below low end (behind v vs e i) t l = meets_next_below v.vm_end end i t.2 l

-- The end of the heap's area, or its start where it has none.
abbrev pub heap_end : ℕ → Option (VmAreaStruct × List VmAreaStruct) → ℕ
heap_end s none = s
heap_end s (some (h, next)) = h.vm_end

abbrev pub heap_has : Option (VmAreaStruct × List VmAreaStruct) → ℕ
heap_has none = heap_flags
heap_has (some (h, next)) = h.vm_flags

-- The heap is whole: its area, if it has one, ends with the page of the break, and it has one unless
-- the break is where it starts.
abbrev pub EndsAtBrk : MmStruct → Option (VmAreaStruct × List VmAreaStruct) → Type 0
EndsAtBrk m found = heap_end m.start_brk found ≡ page_up m.brk

-- Why a call may leave the break where it is.
pub data IsRefused (m : MmStruct) (newbrk : ℕ) : Type 0 where
  too_low : newbrk < m.start_brk → IsRefused m newbrk
  at_stack : m.stack_top ≢ 0 → stack_limit m 0 ≤ newbrk → IsRefused m newbrk
  same : newbrk ≡ m.brk → IsRefused m newbrk
  no_room : m.brk < newbrk → m.room ≡ 0 → IsRefused m newbrk
  -- another area lies on the pages that the heap would get
  in_the_way :
      (a : ℕ)
      → page_up m.brk ≤ a
      → a < page_up newbrk
      → flags_at m.mmap a ≢ none
      → IsRefused m newbrk

-- The break is as it was and so is the rest, or it is the new one, and the heap's addresses are those
-- from its start up to the end of the page of the new break.
pub data IsBreak (m : MmStruct) (newbrk : ℕ) (found : Option (VmAreaStruct × List VmAreaStruct))
    : ℕ × MmStruct → Type 0 where
  kept : IsRefused m newbrk → IsBreak m newbrk found (m.brk, m)
  moved :
      (m' : MmStruct)
      → m'.brk ≡ newbrk
      → IsSorted 0 m'.mmap
      → ((a : ℕ)
          → flags_at m'.mmap a
            ≡ heap_view m.start_brk (page_up newbrk) (page_up m.brk) (heap_has found) m.mmap a)
      → IsBreak m newbrk found (newbrk, m')

page_up_mono : (a b : ℕ) → b + page_size ≤ word → a < b → page_up a ≤ page_up b
page_up_mono a b w l = omega arith

-- The area behind the heap's, where it begins below the new end.
met :
    {s : ℕ} {h : VmAreaStruct} {next vs : List VmAreaStruct} (low end : ℕ)
    → HeapIn s h next vs
    → IsSorted low vs
    → meets_next end next ≡ true
    → (a : ℕ) × (h.vm_end ≤ a) × (a < end) × (flags_at vs a ≢ none)
met {h = h} {next = next} low end (here e) t m = first next t.2 m
  where
    first :
        (ns : List VmAreaStruct)
        → IsSorted h.vm_end ns
        → meets_next end ns ≡ true
        → (a : ℕ) × (h.vm_end ≤ a) × (a < end) × (flags_at (h ∷ ns) a ≢ none)
    first [] t m = absurd (ground arith)
    first (n ∷ ns) t m = (n.vm_start, t.0, ground arith, λ e. ground (arith, t.0, t.1))
met {h = h} low end (behind v vs e i) t m =
    let (a, above, below, taken) = met v.vm_end end i t.2 m in
    let past = heap_above i t.2 in (a, above, below, λ f. taken (ground arith))

grow_heap-IsBreak :
    (m : MmStruct) (newbrk : ℕ) {found : Option (VmAreaStruct × List VmAreaStruct)}
    → IsSorted 0 m.mmap
    → ltb m.brk newbrk ≡ true
    → newbrk + page_size ≤ word
    → m.start_brk ≤ m.brk
    → EndsAtBrk m found
    → HeapFound m.start_brk m.mmap found
    → IsBreak m newbrk found (grow_heap m newbrk found)
unfolding grow_heap vma_record
grow_heap-IsBreak m newbrk t g w b c no_heap =
    elim (Bool-cases (leb (page_up newbrk) m.start_brk)) [
      | inl e ↦ absurd (ground (arith, c, b))
      | inr e ↦ elim (Bool-cases (m.room == 0)) [
        | inl f ↦ rw (grow_heap, vma_record, e, f) (kept (no_room (ground arith) (ground arith)))
        | inr f ↦
            let proper : m.start_brk < page_up newbrk = ground arith in
            rw (grow_heap, vma_record, e, f)
              (recorded (insert_vma-Placed heap_area m.mmap proper t))
      ]
    ]
  where
    heap_area : VmAreaStruct
    heap_area = record { vm_start = m.start_brk; vm_end = page_up newbrk; vm_flags = heap_flags }

    recorded :
        {o : Option (List VmAreaStruct)}
        → Placed 0 heap_area m.mmap o
        → IsBreak m newbrk none
            (elim (elim o as (λ _. Option MmStruct) [
              | none ↦ none
              | some vs ↦ some (record m { mmap = vs; room = m.room - 1 })
            ])
              as (λ _. ℕ × MmStruct) [
                | none ↦ (m.brk, m)
                | some m' ↦ (newbrk, record m' { brk = newbrk })
              ])
    recorded (placed ws sorted view free) = moved _ refl sorted (λ a. ground (arith, view a, c))
    recorded (low_start l) = absurd (omega (arith, l))
    recorded (overlaps a i o) = kept (in_the_way a (ground (arith, c)) (ground arith) o)
grow_heap-IsBreak m newbrk t g w b c (heap h next i) =
    elim (Bool-cases (meets_next (page_up newbrk) next)) [
      | inl e ↦
          let (a, above, below, taken) = met 0 (page_up newbrk) i t e in
          rw e (kept (in_the_way a (omega (arith, above, c)) below taken))
      | inr e ↦ elim (Bool-cases (ltb h.vm_end (page_up newbrk))) [
        | inl f ↦
            let above = heap_above i t in
            let (sorted, view) = set_heap_end_lem 0 (page_up newbrk) i t (ground arith) e in
            rw (e, f) (moved _ refl sorted (λ a. ground (arith, view a, c)))
        | inr f ↦
            let rises = page_up_mono m.brk newbrk w (ground arith) in
            let all : page_up newbrk ≡ page_up m.brk = ground (arith, c, rises) in
            rw (e, f) (moved _ refl t (λ a. rw all (ground (arith, heap_flags_at 0 a i t, c))))
      ]
    ]

shrink_heap-IsBreak :
    (m : MmStruct) (newbrk : ℕ) {found : Option (VmAreaStruct × List VmAreaStruct)}
    → IsSorted 0 m.mmap
    → ltb m.brk newbrk ≡ false
    → newbrk ≤ m.brk
    → m.start_brk ≤ newbrk
    → m.brk + page_size ≤ word
    → EndsAtBrk m found
    → HeapFound m.start_brk m.mmap found
    → IsBreak m newbrk found (shrink_heap m newbrk found)
unfolding shrink_heap
shrink_heap-IsBreak m newbrk t g l s w c no_heap = moved _ refl t (λ a. ground arith)
shrink_heap-IsBreak m newbrk t g l s w c (heap h next i) =
    let above = heap_above i t in
    let at = heap_start i in
    elim (Bool-cases (leb (page_up newbrk) h.vm_start)) [
      | inl e ↦
          let (sorted, view) = remove_heap_lem 0 i t in
          rw e (moved _ refl sorted (λ a. ground (arith, view a, up)))
      | inr e ↦
          let (sorted, view) =
            set_heap_end_lem 0 (page_up newbrk) i t (ground arith)
              (meets_next_below 0 (page_up newbrk) i t (omega (arith, c, up, up_old, l))) in
          rw e (moved _ refl sorted (λ a. ground (arith, view a)))
    ]
  where
    up : newbrk ≤ page_up newbrk
    up = omega (arith, page_up_bounds newbrk (omega arith))

    up_old : page_up newbrk ≤ page_up m.brk
    up_old = omega arith

has_stack : (m : MmStruct) → (stack_limit m 0 == 0) ≡ false → m.stack_top ≢ 0
unfolding stack_limit
has_stack m e f = ground arith

-- Where the areas are sorted, rounding up either break does not wrap, the break is not below its
-- start, and the heap's area ends with the page of the break, do_brk returns the new break, and
-- then the areas stay sorted, the heap ends with the page of the new break and every other address
-- keeps its flags; or it returns the old break and changes nothing, which it does only for the same
-- break, one below the start of the heap or at the stack, or, where the break rises, if there is no
-- memory for an area or another area lies on the pages asked for.
pub do_brk-IsBreak :
    (m : MmStruct) (newbrk : ℕ)
    → IsSorted 0 m.mmap
    → m.brk + page_size ≤ word
    → newbrk + page_size ≤ word
    → m.start_brk ≤ m.brk
    → EndsAtBrk m (find_heap_vma m.start_brk m.mmap)
    → IsBreak m newbrk (find_heap_vma m.start_brk m.mmap) (do_brk m newbrk)
unfolding do_brk
do_brk-IsBreak m newbrk t w w' b c =
    let limit = stack_limit m 0 in
    let found = find_heap_vma-HeapFound m.start_brk m.mmap in
    elim (Bool-cases (ltb newbrk m.start_brk || (not (limit == 0) && leb limit newbrk))) [
      | inl e ↦ rw e (kept (refused e))
      | inr e ↦ elim (Bool-cases (newbrk == m.brk)) [
        | inl f ↦ rw (e, f) (kept (same (ground arith)))
        | inr f ↦ elim (Bool-cases (ltb m.brk newbrk)) [
          | inl g ↦ rw (e, f, g) (grow_heap-IsBreak m newbrk t g w' b c found)
          | inr g ↦
              rw (e, f, g)
                (shrink_heap-IsBreak m newbrk t g (ground arith) (ground arith) w c found)
        ]
      ]
    ]
  where
    refused :
        (ltb newbrk m.start_brk || (not (stack_limit m 0 == 0) && leb (stack_limit m 0) newbrk))
          ≡ true
        → IsRefused m newbrk
    refused e = elim (Bool-cases (ltb newbrk m.start_brk)) [
      | inl l ↦ too_low (ground arith)
      | inr l ↦ at_stack (has_stack m (ground arith)) (ground arith)
    ]
