-- ===== src/Mm/Mmap/Brk.antt =====
-- `do_brk` of mm/mmap.c: the heap is the area that starts at `start_brk`.
use mini_os.Prelude.{
  ℕ, ◌+◌, ◌-◌, Bool, false, not, ◌&&◌, ◌||◌, Option, none, some, List, [], ◌∷◌, ltb, leb, ◌==◌,
  if◌then◌else◌,
}
use mini_os.Mm.Mmap.{VmAreaStruct, MmStruct, page_up, stack_limit, insert_vma}

-- The heap's area, and the chain behind it.
unfoldable pub find_heap_vma : ℕ → List VmAreaStruct → Option (VmAreaStruct × List VmAreaStruct)
find_heap_vma start_brk [] = none
find_heap_vma start_brk (v ∷ vs) =
    if v.vm_start == start_brk then some (v, vs) else find_heap_vma start_brk vs

-- `heap_vma->vm_end = end`
abbrev pub set_heap_end : (start_brk end : ℕ) → List VmAreaStruct → List VmAreaStruct
set_heap_end start_brk end [] = []
set_heap_end start_brk end (v ∷ vs) =
    if v.vm_start == start_brk
    then record v { vm_end = end } ∷ vs
    else v ∷ set_heap_end start_brk end vs

-- `remove_vma(mm, heap_vma)`
abbrev pub remove_heap : ℕ → List VmAreaStruct → List VmAreaStruct
remove_heap start_brk [] = []
remove_heap start_brk (v ∷ vs) =
    if v.vm_start == start_brk then vs else v ∷ remove_heap start_brk vs

-- `vma_record`; `none` is an error.
unfoldable pub vma_record : MmStruct → (start end flags : ℕ) → Option MmStruct
vma_record m start end flags =
    let new : VmAreaStruct = record { vm_start = start; vm_end = end; vm_flags = flags } in
    if leb end start then none else if m.room == 0 then none else elim (insert_vma new m.mmap) [
      | none ↦ none
      | some vs ↦ some (record m { mmap = vs; room = m.room - 1 })
    ]

-- `heap_vma->vm_next && new_end > heap_vma->vm_next->vm_start`
abbrev pub meets_next : ℕ → List VmAreaStruct → Bool
meets_next new_end [] = false
meets_next new_end (n ∷ ns) = ltb n.vm_start new_end

abbrev pub heap_flags : ℕ
heap_flags = 3

unfoldable pub grow_heap :
    MmStruct → (newbrk : ℕ) → Option (VmAreaStruct × List VmAreaStruct) → ℕ × MmStruct
grow_heap m newbrk none =
    elim (vma_record m m.start_brk (page_up newbrk) heap_flags) as (λ _. ℕ × MmStruct) [
      | none ↦ (m.brk, m)
      | some m' ↦ (newbrk, record m' { brk = newbrk })
    ]
grow_heap m newbrk (some (h, next)) = if meets_next (page_up newbrk) next then (m.brk, m) else (
  newbrk,
  record m {
    mmap =
        if ltb h.vm_end (page_up newbrk)
        then set_heap_end m.start_brk (page_up newbrk) m.mmap
        else m.mmap;
    brk = newbrk;
  },
)

unfoldable pub shrink_heap :
    MmStruct → (newbrk : ℕ) → Option (VmAreaStruct × List VmAreaStruct) → ℕ × MmStruct
shrink_heap m newbrk none = (newbrk, record m { brk = newbrk })
shrink_heap m newbrk (some (h, next)) =
    if leb (page_up newbrk) h.vm_start
    then (
      newbrk,
      record m { mmap = remove_heap m.start_brk m.mmap; room = m.room + 1; brk = newbrk },
    )
    else (
      newbrk,
      record m { mmap = set_heap_end m.start_brk (page_up newbrk) m.mmap; brk = newbrk },
    )

-- The break that the call returns, and the address space.
unfoldable pub do_brk : MmStruct → ℕ → ℕ × MmStruct
do_brk m newbrk =
    let limit = stack_limit m 0 in
    let heap = find_heap_vma m.start_brk m.mmap in
    if ltb newbrk m.start_brk || (not (limit == 0) && leb limit newbrk)
    then (m.brk, m)
    else if newbrk == m.brk
    then (m.brk, m)
    else if ltb m.brk newbrk
    then grow_heap m newbrk heap
    else shrink_heap m newbrk heap
