-- ===== src/Mm/Mmap/Tests.antt =====
-- A small address space on which the theorems on mm/mmap.c apply.
use mini_os.Kernel.Task.{ok}
use mini_os.Prelude.{ℕ, ◌≤◌, ◌<◌, true, ◌⊎◌, ◌+◌, ◌%◌, ◌≡◌, ◌↔◌, true, List, [], ◌∷◌, refl, arith}
use mini_os.Mm.Mmap.{
  VmAreaStruct, MmStruct, page_up, word, find_unmapped_area, do_mmap, map_fixed_at,
  linux_prot_to_map, do_munmap, stack_limit, user_stack_bottom,
}
use mini_os.Mm.Mmap.Areas.{inside, IsSorted}
use mini_os.Mm.Mmap.Search.{IsGap, find_unmapped_area-IsGap}
use mini_os.Mm.Mmap.Map.{
  IsUnmapping, do_munmap-Erased, do_munmap-wraps, IsMapping, IsRemapping, do_mmap-IsMapping,
  map_fixed_at-IsRemapping,
}
use mini_os.Mm.Mmap.Brk.{find_heap_vma, do_brk}
use mini_os.Mm.Mmap.Heap.{IsBreak, do_brk-IsBreak}
use mini_os.Mm.Mmap.Protect.{mprotect_covered}
use mini_os.Mm.Mmap.Cover.{IsCovered, mprotect_covered-IsCovered}

abbrev text : VmAreaStruct
text = record { vm_start = 0x10000; vm_end = 0x20000; vm_flags = 5 }

abbrev heap : VmAreaStruct
heap = record { vm_start = 0x20000; vm_end = 0x22000; vm_flags = 3 }

abbrev stack : VmAreaStruct
stack = record { vm_start = 0x4030000; vm_end = 0x4040000; vm_flags = 3 }

abbrev areas : List VmAreaStruct
areas = text ∷ heap ∷ stack ∷ []

abbrev space : MmStruct
space = record {
  mmap = areas;
  stack_top = 0x4040000;
  start_brk = 0x20000;
  brk = 0x21800;
  mmap_base = 0x1000000;
  room = 5;
}

areas-IsSorted : IsSorted 0 areas
areas-IsSorted =
    (omega arith, omega arith, (omega arith, omega arith, (omega arith, omega arith, omega arith)))

do_mmap-IsMapping_example :
    IsMapping space
      (find_unmapped_area space (page_up 0x1800))
      ((find_unmapped_area space (page_up 0x1800) + page_up 0x1800) % word)
      (linux_prot_to_map 3)
      (do_mmap space 0 0x1800 3 0x22)
do_mmap-IsMapping_example = do_mmap-IsMapping space 0 0x1800 3 0x22 areas-IsSorted refl

map_fixed_at-IsRemapping_example :
    IsRemapping space 0x20000 ((0x20000 + 0x1000) % word) 1 (map_fixed_at space 0x20000 0x1000 1)
map_fixed_at-IsRemapping_example =
    map_fixed_at-IsRemapping space 0x20000 0x1000 1 areas-IsSorted (omega arith)

do_brk-IsBreak_example : IsBreak space 0x20800 (find_heap_vma 0x20000 areas) (do_brk space 0x20800)
unfolding find_heap_vma
do_brk-IsBreak_example =
    do_brk-IsBreak space 0x20800 areas-IsSorted (omega arith) (omega arith) (omega arith) refl

mprotect_covered-IsCovered_example :
    (mprotect_covered areas 0x11000 0x21000 ≡ true) ↔ IsCovered areas 0x11000 0x21000
mprotect_covered-IsCovered_example = mprotect_covered-IsCovered areas 0x11000 0x21000 areas-IsSorted

find_unmapped_area-IsGap_example :
    (find_unmapped_area space 0x3000 ≡ 0)
    ⊎ IsGap 0x3000
        (stack_limit space user_stack_bottom)
        0x1000000
        areas
        (find_unmapped_area space 0x3000)
find_unmapped_area-IsGap_example =
    find_unmapped_area-IsGap space 0x3000 0x4040000 areas-IsSorted
      (omega arith, (omega arith, (omega arith, omega arith))) (omega arith) (omega arith)

do_munmap-Erased_example : IsUnmapping space 0x11000 0x1800 (do_munmap space 0x11000 0x1800)
do_munmap-Erased_example = do_munmap-Erased space 0x11000 0x1800 areas-IsSorted (omega arith)

abbrev only_text : MmStruct
only_text = record space { mmap = text ∷ [] }

-- From 0x12000 on, a length that wraps to 0x11000.
do_munmap-wraps_example :
    ((do_munmap only_text 0x12000 0xfffffffffffff000).0 ≡ ok 0)
    × ((do_munmap only_text 0x12000 0xfffffffffffff000).1.mmap
        ≡ (record text { vm_end = 0x12000 } ∷ record text { vm_start = 0x11000 } ∷ []))
    × ((a : ℕ)
        → 0x11000 ≤ a
        → a < 0x12000
        → (inside (record text { vm_end = 0x12000 }) a ≡ true)
          × (inside (record text { vm_start = 0x11000 }) a ≡ true))
do_munmap-wraps_example =
    do_munmap-wraps only_text text 0x12000 0xfffffffffffff000 refl (omega arith) (λ e. ground arith)
      refl (omega arith) (omega arith) (omega arith)
