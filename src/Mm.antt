-- ===== src/Mm.antt =====
-- The directory mm/: pages, the areas and the page tables of an address space, and caches of objects.
pub mod PageAlloc
pub mod Mmap
pub mod Slub
pub mod PageTable
