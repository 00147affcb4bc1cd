-- ===== src/Mm/PageTable.antt =====
-- mm/mmap.c: the page tables of a user address space, the demand paging and the copy on write.
-- A table is a page of 512 entries, and an entry that is not valid is `none`. `Entry 0` is what an
-- entry of the last level holds, a page; `Entry (suc n)` is a table whose entries are `Entry n`, so
-- the table at `mm->pgd` is an `Entry 3`. An address that a table holds is physical, and is
-- written here as the kernel address that `__phys_to_virt` gives for it. The clean of the data
-- cache and the flushes of the TLB are left out.
pub mod Tree
pub mod Account
pub mod Settle
pub mod Walk
pub mod Uses
pub mod Space
pub mod Map
pub mod Cow
pub mod Fault
pub mod Release
pub mod Fork
pub mod Copy
pub mod Share
pub mod Isolation
pub mod Apart
mod Tests
pub mod Change
pub mod Munmap
use mini_os.Prelude.{
  ℕ, zero, suc, ◌+◌, ◌-◌, ◌*◌, ◌/◌, ◌%◌, ◌^◌, Bool, true, false, not, ◌&&◌, ◌||◌, Option, none,
  some, List, [], ◌∷◌, ltb, leb, ◌==◌, if◌then◌else◌, get_or, set, update, bit_and,
}
use mini_os.Prelude.Int.{pos}
use mini_os.Kernel.Task.{Ret, ok, err, enomem, efault}
use mini_os.Mm.PageAlloc.{
  PageAlloc, page_size, alloc_pages, free_pages, virt_to_page, get_page, put_page, page_count,
  is_some, shared,
}
use mini_os.Mm.Mmap.{VmAreaStruct, find_vma}

-- A valid entry of the last level: the page's address, PTE_USER, PTE_RDONLY and PTE_UXN. The other
-- bits are the same in every entry that is made.
pub record Pte : Type 0 where
  pub page : ℕ
  pub user : Bool
  pub rdonly : Bool
  pub uxn : Bool

abbrev pub Entry : ℕ → Type 0
Entry zero = Pte
Entry (suc n) = ℕ × List (Option (Entry n))

abbrev pub Entries : ℕ → Type 0
Entries n = List (Option (Entry n))

-- The allocator, and the bytes of each page by its address and the offset in it.
pub record Frames : Type 0 where
  pub pages : PageAlloc
  pub bytes : ℕ → ℕ → ℕ

abbrev pub pte_entries : ℕ
pte_entries = 512

abbrev pub no_entries : (n count : ℕ) → Entries n
no_entries n zero = []
no_entries n (suc count) = none ∷ no_entries n count

abbrev pub map_prot_write : ℕ
map_prot_write = 2

abbrev pub map_prot_exec : ℕ
map_prot_exec = 4

-- `prot_to_pte(prot)` as the flags of an entry for `page`.
unfoldable pub prot_to_pte : (page prot : ℕ) → Pte
prot_to_pte page prot = record {
  page = page;
  user = not (bit_and prot 7 == 0);
  rdonly = bit_and prot map_prot_write == 0;
  uxn = bit_and prot map_prot_exec == 0;
}

unfoldable pub pte_write : Pte → Bool
pte_write pte = not pte.rdonly

unfoldable pub pte_wrprotect : Pte → Pte
pte_wrprotect pte = record pte { rdonly = true }

unfoldable pub pte_mkwrite : Pte → Pte
pte_mkwrite pte = record pte { rdonly = false }

unfoldable pub pte_cow_candidate : Pte → (vm_flags : ℕ) → Bool
pte_cow_candidate pte vm_flags = pte.rdonly && not (bit_and vm_flags map_prot_write == 0)

-- `(va >> 12) & 0x1ff` at the last level, `>> 21` and `>> 30` above it.
unfoldable pub index : (level va : ℕ) → ℕ
index level va = va / 2 ^ (12 + 9 * level) % 512

-- The entry that `l3_slot` leads to; a missing table and an invalid entry are both `none`.
unfoldable pub find_pte : (n : ℕ) → Entries n → (va : ℕ) → Option Pte
find_pte zero es va = get_or es (index 0 va) none
find_pte (suc n) es va = elim (get_or es (index (suc n) va) none) [
  | none ↦ none
  | some (table, below) ↦ find_pte n below va
]

-- A write through `l3_slot`.
unfoldable pub pte_set : (n : ℕ) → Entries n → (va : ℕ) → Option Pte → Entries n
pte_set zero es va pte = set es (index 0 va) pte
pte_set (suc n) es va pte = elim (get_or es (index (suc n) va) none) [
  | none ↦ es
  | some (table, below) ↦ set es (index (suc n) va) (some (table, pte_set n below va pte))
]

-- A page from the allocator.
abbrev pub take_page : Frames → Option ℕ × Frames
take_page f = let (page, pages) = alloc_pages f.pages (pos 0) in (page, record f { pages = pages })

-- `put_page(virt_to_page(addr))` and `get_page` of the same.
abbrev pub put_frame : Frames → ℕ → Frames
put_frame f addr = record f { pages = put_page f.pages (virt_to_page f.pages addr) }

abbrev pub get_frame : Frames → ℕ → Frames
get_frame f addr = record f { pages = get_page f.pages (virt_to_page f.pages addr) }

abbrev pub free_frame : Frames → ℕ → Frames
free_frame f addr = record f { pages = free_pages f.pages addr (pos 0) }

-- A new table is all zeros. Where there is none, its write into the parent is the caller's `set`.
unfoldable pub get_or_create_table :
    (n : ℕ) → Frames → Option (Entry (suc n)) → Option (Entry (suc n)) × Frames
get_or_create_table n f (some table) = (some table, f)
get_or_create_table n f none =
    let (page, f') = take_page f in
    elim page [ none ↦ (none, f') | some addr ↦ (some (addr, no_entries n pte_entries), f') ]

-- `map_page` from the table of level `n` down.
unfoldable pub map_from : (n : ℕ) → Frames → Entries n → (va : ℕ) → Pte → Bool × Entries n × Frames
map_from zero f es va pte = (true, set es (index 0 va) (some pte), f)
map_from (suc n) f es va pte =
    let i = index (suc n) va in
    let (table, f') = get_or_create_table n f (get_or es i none) in
    elim table [
      | none ↦ (false, es, f')
      | some (addr, below) ↦
          let (done, below', f'') = map_from n f' below va pte in
          (done, set es i (some (addr, below')), f'')
    ]

unfoldable pub map_page : Frames → Entries 2 → (va page prot : ℕ) → Ret × Entries 2 × Frames
map_page f pgd va page prot =
    let (done, pgd', f') = map_from 2 f pgd va (prot_to_pte page prot) in
    (if done then ok 0 else err enomem, pgd', f')

-- `va_mapped`
unfoldable pub va_mapped : Entries 2 → (va : ℕ) → Bool
va_mapped pgd va = is_some (find_pte 2 pgd va)

unfoldable pub unmap_page : Frames → Entries 2 → (va : ℕ) → Entries 2 × Frames
unmap_page f pgd va = elim (find_pte 2 pgd va) [
  | none ↦ (pgd, f)
  | some pte ↦ (pte_set 2 pgd va none, put_frame f pte.page)
]

-- `page_count` answers an unsigned number.
unfoldable pub is_shared : Frames → Option ℕ → Bool
is_shared f page = is_some page && ltb 1 (page_count f.pages page)

unfoldable pub change_pte_prot : Frames → Entries 2 → (va map_prot : ℕ) → Entries 2
change_pte_prot f pgd va map_prot = elim (find_pte 2 pgd va) [
  | none ↦ pgd
  | some old ↦
      let pte = prot_to_pte old.page map_prot in
      let kept =
        not (bit_and map_prot map_prot_write == 0) && is_shared f (virt_to_page f.pages old.page) in
      pte_set 2 pgd va (some (if kept then pte_wrprotect pte else pte))
]

-- `change_prot_range` over `count` pages from `va` on.
unfoldable pub change_prot_range : Frames → Entries 2 → (va map_prot count : ℕ) → Entries 2
change_prot_range f pgd va map_prot zero = pgd
change_prot_range f pgd va map_prot (suc count) =
    change_prot_range f (change_pte_prot f pgd va map_prot) (va + page_size) map_prot count

-- The loop of `do_munmap` over `count` pages from `va` on.
unfoldable pub unmap_range : Frames → Entries 2 → (va count : ℕ) → Entries 2 × Frames
unmap_range f pgd va zero = (pgd, f)
unmap_range f pgd va (suc count) =
    let (pgd', f') = unmap_page f pgd va in unmap_range f' pgd' (va + page_size) count

-- The end of `do_cow_fault`, for a page that is shared; `put_page(old)` comes last.
unfoldable pub copy_page : Frames → Entries 2 → (va : ℕ) → Pte → Ret × Entries 2 × Frames
copy_page f pgd va pte =
    let (page, f') = take_page f in
    elim page [
      | none ↦ (err enomem, pgd, f')
      | some addr ↦
          let copied : Frames = record f' { bytes = update f'.bytes addr (f'.bytes pte.page) } in
          (
            ok 0,
            pte_set 2 pgd va (some (pte_mkwrite (record pte { page = addr }))),
            put_frame copied pte.page,
          )
    ]

unfoldable pub do_cow_fault :
    Frames → Entries 2 → (va : ℕ) → VmAreaStruct → Ret × Entries 2 × Frames
do_cow_fault f pgd va vma = elim (find_pte 2 pgd va) [
  | none ↦ (err efault, pgd, f)
  | some pte ↦
      let old = virt_to_page f.pages pte.page in
      if not (pte_cow_candidate pte vma.vm_flags) || not (is_some old)
      then (err efault, pgd, f)
      else if page_count f.pages old == 1
      then (ok 0, pte_set 2 pgd va (some (pte_mkwrite pte)), f)
      else copy_page f pgd va pte
]

-- The end of `do_page_fault`, where nothing is mapped.
unfoldable pub fill_page : Frames → Entries 2 → (va flags : ℕ) → Ret × Entries 2 × Frames
fill_page f pgd va flags =
    let (page, f') = take_page f in
    elim page [
      | none ↦ (err enomem, pgd, f')
      | some addr ↦
          let zeroed : Frames = record f' { bytes = update f'.bytes addr (λ offset. 0) } in
          let (ret, pgd', f'') = map_page zeroed pgd va addr flags in
          elim ret [ ok n ↦ (ok 0, pgd', f'') | err e ↦ (err e, pgd', free_frame f'' addr) ]
    ]

-- What the ESR says of a fault: an instruction fetch, a write, or a read.
pub data Access : Type 0 where
  fetch store load : Access

-- The guards of `do_page_fault` on the area's flags.
unfoldable pub access_ok : Access → (vm_flags : ℕ) → Bool
access_ok fetch vm_flags = not (bit_and vm_flags map_prot_exec == 0)
access_ok store vm_flags = not (bit_and vm_flags map_prot_write == 0)
access_ok load vm_flags = not (bit_and vm_flags 7 == 0)

-- `!!(esr & ESR_ELx_WNR)` is also looked at on a fetch, where it is 0.
abbrev pub is_store : Access → Bool
is_store store = true
is_store _ = false

-- Some area of `areas` covers `addr`.
unfoldable pub covering : List VmAreaStruct → (addr : ℕ) → Option VmAreaStruct
covering areas addr = elim (find_vma areas addr) [
  | none ↦ none
  | some vma ↦ if ltb addr vma.vm_start then none else some vma
]

-- `do_page_fault` from the area that covers the address on.
unfoldable pub fault_in :
    Frames → Entries 2 → (va : ℕ) → Access → Option VmAreaStruct → Ret × Entries 2 × Frames
fault_in f pgd va access none = (err efault, pgd, f)
fault_in f pgd va access (some vma) =
    if not (access_ok access vma.vm_flags)
    then (err efault, pgd, f)
    else if va_mapped pgd va
    then (if is_store access then do_cow_fault f pgd va vma else (err efault, pgd, f))
    else fill_page f pgd va vma.vm_flags

unfoldable pub do_page_fault :
    Frames → Entries 2 → List VmAreaStruct → (addr : ℕ) → Access → Ret × Entries 2 × Frames
unfolding fault_in
do_page_fault f pgd areas addr access =
    fault_in f pgd (addr / page_size * page_size) access (covering areas addr)
