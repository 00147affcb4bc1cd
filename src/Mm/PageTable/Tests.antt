-- ===== src/Mm/PageTable/Tests.antt =====
-- Runs of the page tables, and their theorems at a small address space.
use mini_os.Prelude.{◌/◌, false, ◌*◌, ◌≡◌, refl, ◌∙◌, sym, true, none, some, [], ◌∷◌, arith, Option}
use mini_os.Mm.PageTable.Munmap.{munmap_space, MunmapOutcome, munmap_space-MunmapOutcome}
use mini_os.Mm.Mmap.{MmStruct, VmAreaStruct, find_vma}
use mini_os.Mm.PageAlloc.{
  PageAlloc, page_size, page_alloc_init, alloc_pages, virt_to_page, get_page, page_count,
  addr_to_pfn, pfn_in_pool, addr_in_pool,
}
use mini_os.Mm.PageAlloc.Init.{page_alloc_init-Started}
use mathlib.Core.Option.{some-ne-none}
use mini_os.Mm.PageTable.{
  Pte, Entry, Entries, Frames, store, no_entries, pte_entries, find_pte, do_page_fault, covering,
  change_pte_prot, do_cow_fault, access_ok, va_mapped, fill_page, map_page, index, map_from,
  get_or_create_table, prot_to_pte, copy_page, pte_set, pte_mkwrite, pte_wrprotect, pte_write,
  pte_cow_candidate,
}
use mini_os.Mm.PageTable.Tree.{dup_pgtable, dup_table, dup_entries, free_pgtable_level}
use mini_os.Mm.PageTable.Account.{Accounts, Accounts-eq}
use mini_os.Mm.PageTable.Uses.{uses-no_entries, no_entries-IsFull, find_pte-no_entries}
use mini_os.Mm.PageTable.Space.{IsSpace}
use mini_os.Mm.PageTable.Cow.{Elsewhere}
use mini_os.Mm.PageTable.Fault.{FaultOutcome, do_page_fault-FaultOutcome}
use mini_os.Mm.PageTable.Fork.{HasRoom}
use mini_os.Mm.PageTable.Apart.{Undisturbed, dup_pgtable-do_page_fault}
use mini_os.Mm.PageTable.Isolation.{
  IsUndone, ForkOutcome, dup_pgtable-ForkOutcome, free_pgtable_level-dup_pgtable,
}
use mini_os.Mm.PageTable.Change.{ReprotectedAt, change_pte_prot-Reprotected}

-- Sixteen pages at the end of RAM, none of them used.
abbrev sixteen : PageAlloc
sixteen = page_alloc_init 0xffff800087ff0000

aligned : sixteen.mem_start ≡ 0xffff800087ff0000
unfolding page_alloc_init
aligned = refl

sixteen-Accounts : Accounts (λ q. 0) sixteen
sixteen-Accounts =
    let s = page_alloc_init-Started 0xffff800087ff0000 (omega arith) (omega arith) in
    record {
      valid = s.valid;
      mapped = s.mapped;
      aligned = omega (arith, aligned);
      held = λ q l. absurd (omega arith);
    }

abbrev start : Frames
start = record { pages = sixteen; bytes = λ q offset. 0 }

-- An address space with nothing mapped, and nobody else.
start-IsSpace : IsSpace (λ q. 0) start (no_entries 2 pte_entries)
start-IsSpace = record {
  full = no_entries-IsFull 2;
  accounts = Accounts-eq (λ q. omega (arith, uses-no_entries 2 pte_entries q)) sixteen-Accounts;
  bounded = λ q. omega (arith, uses-no_entries 2 pte_entries q);
  private = λ va pte e w. absurd (some-ne-none pte (sym e ∙ find_pte-no_entries 2 va));
}

-- One area of one page, for reading and writing.
abbrev data_area : VmAreaStruct
data_area = record { vm_start = 0x4000; vm_end = 0x5000; vm_flags = 3 }

abbrev filled : (Entries 2) × Frames
filled =
    let (ret, pgd, f) =
      do_page_fault start (no_entries 2 pte_entries) (data_area ∷ []) 0x4010 store in
    (pgd, f)

filled-Elsewhere :
    Elsewhere
      (λ q. 0)
      start
      (no_entries 2 pte_entries)
      (0x4010 / page_size * page_size)
      (do_page_fault start (no_entries 2 pte_entries) (data_area ∷ []) 0x4010 store)
filled-Elsewhere = (do_page_fault-FaultOutcome start-IsSpace (data_area ∷ []) 0x4010 store).0

filled_pte :
    find_pte 2 filled.0 0x4000
    ≡ some (record { page = 0xffff800087ff0000; user = true; rdonly = false; uxn = true })
unfolding do_page_fault find_vma page_alloc_init alloc_pages find_pte covering access_ok va_mapped
    fill_page map_page index map_from get_or_create_table prot_to_pte
filled_pte = refl

do_page_fault-FaultOutcome_example :
    let out = do_page_fault start (no_entries 2 pte_entries) (data_area ∷ []) 0x4010 store in
    Elsewhere (λ q. 0) start (no_entries 2 pte_entries) 0x4000 out
    × FaultOutcome
        (λ q. 0)
        start
        (no_entries 2 pte_entries)
        0x4000
        store
        (covering (data_area ∷ []) 0x4010)
        out
do_page_fault-FaultOutcome_example =
    do_page_fault-FaultOutcome start-IsSpace (data_area ∷ []) 0x4010 store

filled-HasRoom : HasRoom (λ q. 0) 2 filled.0
filled-HasRoom q = omega (arith, filled-Elsewhere.few q, uses-no_entries 2 pte_entries q)

dup_pgtable-ForkOutcome_example :
    ForkOutcome (λ q. 0) filled.1 filled.0 (dup_pgtable filled.1 (0, filled.0))
dup_pgtable-ForkOutcome_example = dup_pgtable-ForkOutcome filled-Elsewhere.space filled-HasRoom 0

abbrev forked : Option (Entry 3) × Entry 3 × Frames
forked = dup_pgtable filled.1 (0, filled.0)

abbrev child : Entry 3
child = elim forked.0 [ none ↦ (0, []) | some table ↦ table ]

child-forked : forked.0 ≡ some child
unfolding do_page_fault find_vma page_alloc_init alloc_pages find_pte covering access_ok va_mapped
    fill_page map_page index map_from get_or_create_table prot_to_pte dup_pgtable dup_table
    dup_entries virt_to_page get_page addr_to_pfn pfn_in_pool addr_in_pool
child-forked = refl

free_pgtable_level-dup_pgtable_example :
    IsUndone (λ q. 0) filled.1 filled.0 (free_pgtable_level 2 forked.2 child)
free_pgtable_level-dup_pgtable_example =
    free_pgtable_level-dup_pgtable filled-Elsewhere.space filled-HasRoom 0 child child-forked

-- After the fork the child writes: it gets a page of its own.
dup_pgtable-do_page_fault_example :
    Undisturbed filled.1 filled.0 forked.1.1
      (do_page_fault forked.2 child.1 (data_area ∷ []) 0x4010 store)
    × Undisturbed filled.1 filled.0 child.1
        (do_page_fault forked.2 forked.1.1 (data_area ∷ []) 0x4010 store)
dup_pgtable-do_page_fault_example =
    dup_pgtable-do_page_fault filled-Elsewhere.space filled-HasRoom 0 child child-forked
      (data_area ∷ []) 0x4010 store

abbrev written : Entries 2 × Frames
written =
    let (ret, pgd, f) = do_page_fault forked.2 child.1 (data_area ∷ []) 0x4010 store in (pgd, f)

abbrev copy_pte : Pte
copy_pte = record { page = 0xffff800087ff6000; user = true; rdonly = false; uxn = true }

abbrev parent_pte : Pte
parent_pte = record { page = 0xffff800087ff0000; user = true; rdonly = true; uxn = true }

written_pte : find_pte 2 written.0 0x4000 ≡ some copy_pte
unfolding do_page_fault find_vma page_alloc_init alloc_pages find_pte covering access_ok va_mapped
    fill_page map_page index map_from get_or_create_table prot_to_pte dup_pgtable dup_table
    dup_entries virt_to_page get_page addr_to_pfn pfn_in_pool addr_in_pool do_cow_fault copy_page
    pte_set pte_mkwrite pte_wrprotect pte_write pte_cow_candidate page_count
written_pte = refl

kept_pte : find_pte 2 forked.1.1 0x4000 ≡ some parent_pte
unfolding do_page_fault find_vma page_alloc_init alloc_pages find_pte covering access_ok va_mapped
    fill_page map_page index map_from get_or_create_table prot_to_pte dup_pgtable dup_table
    dup_entries virt_to_page get_page addr_to_pfn pfn_in_pool addr_in_pool pte_wrprotect pte_write
kept_pte = refl

change_pte_prot-Reprotected_example :
    IsSpace (λ q. 0) filled.1 (change_pte_prot filled.1 filled.0 0x4000 1)
    × ReprotectedAt (λ q. 0) filled.0 0x4000 1 (change_pte_prot filled.1 filled.0 0x4000 1)
change_pte_prot-Reprotected_example = change_pte_prot-Reprotected filled-Elsewhere.space 0x4000 1

-- The area alone in its address space.
abbrev one_area : MmStruct
one_area = record {
  mmap = data_area ∷ [];
  stack_top = 0x4040000;
  start_brk = 0x20000;
  brk = 0x20000;
  mmap_base = 0x1000000;
  room = 5;
}

munmap_space-MunmapOutcome_example :
    MunmapOutcome
      (λ q. 0)
      filled.1
      filled.0
      one_area
      0x4000
      0x800
      (munmap_space filled.1 filled.0 one_area 0x4000 0x800)
munmap_space-MunmapOutcome_example =
    munmap_space-MunmapOutcome one_area 0x4000 0x800 (omega arith, omega arith, omega arith)
      filled-Elsewhere.space (omega arith)
