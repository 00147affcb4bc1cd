-- ===== src/Mm/Mmap.antt =====
-- mm/mmap.c: the areas of a user address space, and brk, mmap, munmap and mprotect on them.
-- The chain of `vm_next` is the list of areas. `room` is how many more areas the cache of mm/slub.c
-- can give, so an allocation fails where it is 0. The page tables are in Mm.PageTable.
pub mod Areas
pub mod Erase
pub mod Insert
pub mod Search
pub mod Map
pub mod Brk
pub mod Heap
pub mod Protect
pub mod Cover
pub mod Change
mod Tests
use mini_os.Prelude.{
  ℕ, zero, suc, ◌+◌, ◌-◌, ◌*◌, ◌/◌, ◌%◌, ◌^◌, Bool, true, false, not, ◌&&◌, ◌||◌, Option, none,
  some, List, [], ◌∷◌, ◌++◌, ltb, leb, ◌==◌, if◌then◌else◌, length, bit_and, bit_or, complement,
}
use mini_os.Kernel.Task.{Ret, ok, err, enomem, einval, efault}

abbrev pub word : ℕ
word = 2 ^ 64

abbrev pub page_size : ℕ
page_size = 4096

abbrev pub user_stack_size : ℕ
user_stack_size = 0x10000

abbrev pub user_stack_bottom : ℕ
user_stack_bottom = 0x4030000

-- `(x + PAGE_SIZE - 1UL) & ~(PAGE_SIZE - 1UL)`, in 64 bits.
abbrev pub page_up : ℕ → ℕ
page_up x = (x + page_size - 1) % word / page_size * page_size

-- `struct vm_area_struct`; `vm_end` is exclusive.
pub record VmAreaStruct : Type 0 where
  pub vm_start : ℕ
  pub vm_end : ℕ
  pub vm_flags : ℕ

pub record MmStruct : Type 0 where
  pub mmap : List VmAreaStruct
  pub stack_top : ℕ
  pub start_brk : ℕ
  pub brk : ℕ
  pub mmap_base : ℕ
  pub room : ℕ

unfoldable pub find_vma : List VmAreaStruct → ℕ → Option VmAreaStruct
find_vma [] addr = none
find_vma (v ∷ vs) addr = if ltb addr v.vm_end then some v else find_vma vs addr

-- `prev->vm_end > new->vm_start`, where there is an area before the place.
abbrev pub reaches : Option VmAreaStruct → VmAreaStruct → Bool
reaches none new = false
reaches (some prev) new = ltb new.vm_start prev.vm_end

-- The walk of `insert_vma` to the place of the new area; `none` is -EINVAL.
unfoldable pub place_vma :
    Option VmAreaStruct → VmAreaStruct → List VmAreaStruct → Option (List VmAreaStruct)
place_vma prev new [] = if reaches prev new then none else some (new ∷ [])
place_vma prev new (v ∷ vs) =
    let further : Option (List VmAreaStruct) = elim (place_vma (some v) new vs) [
      | none ↦ none
      | some ws ↦ some (v ∷ ws)
    ] in
    if ltb v.vm_start new.vm_start
    then further
    else if ltb v.vm_start new.vm_end
    then none
    else if reaches prev new
    then none
    else some (new ∷ v ∷ vs)

unfoldable pub insert_vma : VmAreaStruct → List VmAreaStruct → Option (List VmAreaStruct)
insert_vma new vs = if leb new.vm_end new.vm_start then none else place_vma none new vs

-- What the body of the loop of `vma_erase_range` leaves of an area.
abbrev pub cut_vma : (start end : ℕ) → VmAreaStruct → List VmAreaStruct
cut_vma start end v =
    if leb v.vm_end start || leb end v.vm_start
    then v ∷ []
    else if leb start v.vm_start && leb v.vm_end end
    then []
    else if leb start v.vm_start
    then record v { vm_start = end } ∷ []
    else if leb v.vm_end end
    then record v { vm_end = start } ∷ []
    else record v { vm_end = start } ∷ record v { vm_start = end } ∷ []

-- A piece more takes an object from the cache, a piece less gives one back.
unfoldable pub vma_erase_range :
    (room start end : ℕ) → List VmAreaStruct → Ret × List VmAreaStruct × ℕ
vma_erase_range room start end [] = (ok 0, [], room)
vma_erase_range room start end (v ∷ vs) =
    let pieces = cut_vma start end v in
    let (ret, rest, left) = vma_erase_range (room + 1 - length pieces) start end vs in
    if ltb (room + 1) (length pieces)
    then (err enomem, v ∷ vs, room)
    else (ret, pieces ++ rest, left)

unfoldable pub stack_limit : MmStruct → (no_stack : ℕ) → ℕ
stack_limit m no_stack =
    if m.stack_top == 0 then no_stack else (m.stack_top + word - user_stack_size) % word

-- The loop of `find_unmapped_area`.
unfoldable pub area_from : (len limit last : ℕ) → List VmAreaStruct → ℕ
area_from len limit last [] = if leb ((last + len) % word) limit then last else 0
area_from len limit last (v ∷ vs) =
    let next = area_from len limit (if ltb last v.vm_end then page_up v.vm_end else last) vs in
    if leb ((last + len) % word) v.vm_start && leb ((last + len) % word) limit then last else next

unfoldable pub find_unmapped_area : MmStruct → ℕ → ℕ
find_unmapped_area m len =
    area_from len (stack_limit m user_stack_bottom) (page_up m.mmap_base) m.mmap

unfoldable pub do_munmap : MmStruct → (addr len : ℕ) → Ret × MmStruct
do_munmap m addr len =
    let (ret, rest, left) = vma_erase_range m.room addr (page_up (addr + len)) m.mmap in
    if len == 0
    then (ok 0, m)
    else if not (addr % page_size == 0)
    then (err einval, m)
    else (ret, record m { mmap = rest; room = left })

-- The end of `do_mmap`, from `vma_alloc` on.
unfoldable pub map_at : MmStruct → (va len flags : ℕ) → Ret × MmStruct
map_at m va len flags =
    let end = (va + len) % word in
    let new : VmAreaStruct = record { vm_start = va; vm_end = end; vm_flags = flags } in
    if m.room == 0 then (err enomem, m) else elim (insert_vma new m.mmap) [
      | none ↦ (err einval, m)
      | some vs ↦ (
        ok va,
        record m {
          mmap = vs;
          room = m.room - 1;
          mmap_base = if ltb m.mmap_base end then end else m.mmap_base;
        },
      )
    ]

abbrev pub map_anonymous : ℕ
map_anonymous = 0x20

abbrev pub map_fixed : ℕ
map_fixed = 0x10

-- PROT_READ, PROT_WRITE and PROT_EXEC are the bits of the flags too.
unfoldable pub linux_prot_to_map : ℕ → ℕ
linux_prot_to_map prot = bit_or (bit_or (bit_and prot 1) (bit_and prot 2)) (bit_and prot 4)

-- `do_mmap` at an address that the caller fixed.
unfoldable pub map_fixed_at : MmStruct → (va len flags : ℕ) → Ret × MmStruct
map_fixed_at m va len flags =
    let end = (va + len) % word in
    let (ret, rest, left) = vma_erase_range m.room va end m.mmap in
    let cleared : MmStruct = record m { mmap = rest; room = left } in
    if va == 0 || ltb (stack_limit m user_stack_bottom) end
    then (err einval, m)
    else elim ret [ ok _ ↦ map_at cleared va len flags | err e ↦ (err e, cleared) ]

unfoldable pub do_mmap : MmStruct → (addr len prot flags : ℕ) → Ret × MmStruct
do_mmap m addr len prot flags =
    let size = page_up len in
    let va = find_unmapped_area m size in
    if len == 0 || bit_and flags map_anonymous == 0
    then (err einval, m)
    else if addr == 0 || bit_and flags map_fixed == 0
    then (if va == 0 then (err enomem, m) else map_at m va size (linux_prot_to_map prot))
    else map_fixed_at m (addr / page_size * page_size) size (linux_prot_to_map prot)
