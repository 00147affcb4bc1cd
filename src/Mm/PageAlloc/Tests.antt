-- ===== src/Mm/PageAlloc/Tests.antt =====
-- Runs of the allocator, and its theorems at concrete pools.
use mini_os.Prelude.{ℕ, ◌^◌, ◌≡◌, ◌<◌, refl, none, some, [], ◌∷◌, arith}
use mini_os.Prelude.Int.{pos}
use mini_os.Mm.PageAlloc.{
  PageAlloc, page_alloc_init, alloc_pages, free_pages, pfn_to_addr, addr_to_pfn, addr_in_pool,
  pfn_in_pool, buddy_free, free_list_remove, order_valid,
}
use mini_os.Mm.PageAlloc.Invariant.{IsValid, IsBlock, InUse}
use mini_os.Mm.PageAlloc.Free.{Freed}
use mini_os.Mm.PageAlloc.Alloc.{Outcome, alloc_pages-Outcome}
use mini_os.Mm.PageAlloc.Reclaim.{
  IsMapped, counted, counted-IsValid, free_pages-Freed, free_pages-misaligned,
}
use mini_os.Mm.PageAlloc.Init.{bare, bare-IsValid, page_alloc_init-Started}

-- Four pages at the end of RAM.
abbrev four : PageAlloc
four = page_alloc_init 0xffff800087ffc000

-- A page out of four: the other three wait as blocks of one and two pages.
split_example :
    let (r, a) = alloc_pages four (pos 0) in
    (r ≡ some 0xffff800087ffc000) × (a.free_area 0 ≡ 1 ∷ []) × (a.free_area 1 ≡ 2 ∷ [])
unfolding page_alloc_init alloc_pages
split_example = (refl, refl, refl)

-- Given back, the four are one block again.
merge_example :
    let a = free_pages (alloc_pages four (pos 0)).1 0xffff800087ffc000 (pos 0) in
    (a.free_area 0 ≡ []) × (a.free_area 1 ≡ []) × (a.free_area 2 ≡ 0 ∷ [])
unfolding page_alloc_init alloc_pages free_pages order_valid addr_to_pfn pfn_in_pool addr_in_pool
    buddy_free free_list_remove
merge_example = (refl, refl, refl)

bad_order : alloc_pages four (pos 3) ≡ (none, four)
unfolding page_alloc_init alloc_pages
bad_order = refl

four-IsValid : IsValid four
four-IsValid = (page_alloc_init-Started 0xffff800087ffc000 (omega arith) (omega arith)).valid

alloc_pages-Outcome_example : Outcome four 0 (alloc_pages four (pos 0))
alloc_pages-Outcome_example = alloc_pages-Outcome four 0 four-IsValid

-- A pool of two pages, all in use by one owner, that starts at `start`.
abbrev full : ℕ → PageAlloc
full start = counted (bare start 1) 0 1

full-IsValid : (start : ℕ) → IsValid (full start)
full-IsValid start = counted-IsValid 0 1 (bare-IsValid start 1)

full-IsMapped : (start : ℕ) → 0 < start → start < 2 ^ 63 → IsMapped (full start)
full-IsMapped start l h = record { size = refl; start = l; end = omega arith }

two-IsBlock : (start : ℕ) → IsBlock (full start) 0 1
two-IsBlock start = record {
  order = omega arith;
  index = 0;
  aligned = omega arith;
  inside = omega arith;
}

one-IsBlock : (start : ℕ) → IsBlock (full start) 0 0
one-IsBlock start = record {
  order = omega arith;
  index = 0;
  aligned = omega arith;
  inside = omega arith;
}

full-InUse : (start o : ℕ) → InUse (full start) 0 o
full-InUse start o q k e = absurd (ground arith)

free_pages-Freed_example :
    Freed
      (counted (full 0x40000000) 0 0)
      0
      1
      (free_pages (full 0x40000000) (pfn_to_addr (full 0x40000000) 0) (pos 1))
free_pages-Freed_example =
    free_pages-Freed (full-IsValid 0x40000000)
      (full-IsMapped 0x40000000 (omega arith) (omega arith)) 0 1 (two-IsBlock 0x40000000)
      (full-InUse 0x40000000 1) refl (omega arith)

-- A stack of two pages in a pool that starts at an odd page is never given back.
free_pages-misaligned_example :
    free_pages (full 0x40001000) (pfn_to_addr (full 0x40001000) 0) (pos 1) ≡ full 0x40001000
free_pages-misaligned_example =
    free_pages-misaligned (full-IsValid 0x40001000)
      (full-IsMapped 0x40001000 (omega arith) (omega arith)) 0 1 (two-IsBlock 0x40001000)
      (full-InUse 0x40001000 1) (omega arith)
