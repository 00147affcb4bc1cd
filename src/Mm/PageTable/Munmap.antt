-- ===== src/Mm/PageTable/Munmap.antt =====
-- `do_munmap` of mm/mmap.c on an address space: the areas of Mm.Mmap and then the page tables.
use mini_os.Prelude.{
  ℕ, ◌+◌, ◌-◌, ◌*◌, ◌/◌, ◌%◌, ◌^◌, ◌≤◌, ◌<◌, ◌≡◌, ◌⊎◌, inl, inr, refl, ap, ◌∙◌, false, not, ◌&&◌,
  none, arith, ltb, leb, ◌==◌, Bool-cases, if◌then◌else◌,
}
use mini_os.Kernel.Task.{Ret, Errno, ok, err}
use mini_os.Mm.PageAlloc.{page_size}
use mini_os.Mm.Mmap.{MmStruct, page_up, do_munmap}
use mini_os.Mm.Mmap.Areas.{IsSorted, flags_at}
use mini_os.Mm.Mmap.Search.{page_up_bounds}
use mini_os.Mm.Mmap.Map.{in_range, IsUnmapping, do_munmap-Erased}
use mini_os.Mm.PageTable.{Entries, Frames, find_pte, unmap_range}
use mini_os.Mm.PageTable.Space.{IsSpace}
use mini_os.Mm.PageTable.Change.{unmap_range-gone}

abbrev pub Out : Type 0
Out = Ret × MmStruct × Entries 2 × Frames

-- How many pages the loop goes over; it is not reached where the length is 0.
abbrev pub pages_of : (addr len : ℕ) → ℕ
pages_of addr len = if len == 0 then 0 else (page_up (addr + len) - addr) / page_size

-- What follows `vma_erase_range` in `do_munmap`.
unfoldable pub unmap_after : Frames → Entries 2 → (addr len : ℕ) → Ret × MmStruct → Out
unmap_after f pgd addr len (err e, m) = (err e, m, pgd, f)
unmap_after f pgd addr len (ok n, m) =
    let (pgd', f') = unmap_range f pgd addr (pages_of addr len) in (ok n, m, pgd', f')

unfoldable pub munmap_space : Frames → Entries 2 → MmStruct → (addr len : ℕ) → Out
munmap_space f pgd m addr len = unmap_after f pgd addr len (do_munmap m addr len)

-- Both views of an address: exactly the range is gone from them.
abbrev pub IsGone : Entries 2 → MmStruct → (addr len : ℕ) → Out → Type 0
IsGone pgd m addr len out =
    (at : ℕ)
    → at < 2 ^ 39
    → let gone = not (len == 0) && in_range addr (page_up (addr + len)) at in
      (flags_at out.1.mmap at ≡ (if gone then none else flags_at m.mmap at))
      × (find_pte 2 out.2 at ≡ (if gone then none else find_pte 2 pgd at))

-- A refused call leaves the page tables; one that succeeds takes the range away.
abbrev pub MunmapOutcome :
    (others : ℕ → ℕ) → Frames → Entries 2 → MmStruct → (addr len : ℕ) → Out → Type 0
MunmapOutcome others f pgd m addr len out =
    IsSorted 0 out.1.mmap
    × IsSpace others out.3 out.2
    × (((e : Errno) × (out.0 ≡ err e) × (out.2 ≡ pgd) × (out.3 ≡ f))
        ⊎ ((out.0 ≡ ok 0) × IsGone pgd m addr len out))

-- The loop ends where the range, rounded up to a page, ends.
pages_of_end :
    (addr len : ℕ)
    → addr % page_size ≡ 0
    → addr + len + page_size ≤ 2 ^ 39
    → (len == 0) ≡ false
    → addr + pages_of addr len * page_size ≡ page_up (addr + len)
pages_of_end addr len a l some_len =
    let (above, below, whole) = page_up_bounds (addr + len) (omega arith) in
    rw some_len (omega (arith, above, whole))

range_same :
    (addr len count end at : ℕ)
    → (len == 0) ≡ false
    → addr + count * page_size ≡ end
    → (leb addr at && ltb at (addr + count * page_size)) ≡ (not (len == 0) && in_range addr end at)
range_same addr len count end at some_len e = rw (some_len, e) refl

do_munmap-aligned :
    (m : MmStruct) (addr len : ℕ) (n : ℕ)
    → (len == 0) ≡ false
    → (do_munmap m addr len).0 ≡ ok n
    → addr % page_size ≡ 0
unfolding do_munmap
do_munmap-aligned m addr len n some_len = elim (Bool-cases (addr % page_size == 0)) [
  | inl e ↦ λ done. ground arith
  | inr e ↦ rw (some_len, e) (λ done. absurd (ground arith))
]

module _ {others : ℕ → ℕ} {f : Frames} {pgd : Entries 2} (m : MmStruct) (addr len : ℕ)
    (s : IsSpace others f pgd) (small : addr + len + page_size ≤ 2 ^ 39) where
  pages_gone :
      ((len == 0) ≡ false → addr % page_size ≡ 0)
      → let out = unmap_range f pgd addr (pages_of addr len) in
        IsSpace others out.1 out.0
        × ((at : ℕ)
            → at < 2 ^ 39
            → find_pte 2 out.0 at ≡ (
                if not (len == 0) && in_range addr (page_up (addr + len)) at
                then none
                else find_pte 2 pgd at))
  unfolding unmap_range
  pages_gone aligned = elim (Bool-cases (len == 0)) [
    | inl e ↦ rw e (s, λ at l. refl)
    | inr e ↦
        let end = pages_of_end addr len (aligned e) small e in
        let (space, gone) =
          unmap_range-gone (pages_of addr len) addr s (aligned e)
            (omega (arith, end, page_up_bounds (addr + len) (omega arith))) in
        (
          space,
          λ at l.
              gone at l
              ∙ ap (λ b. if b then none else find_pte 2 pgd at)
                  (range_same addr len (pages_of addr len) (page_up (addr + len)) at e end),
        )
  ]

  after :
      (out : Ret × MmStruct)
      → IsUnmapping m addr len out
      → ((n : ℕ) → (len == 0) ≡ false → out.0 ≡ ok n → addr % page_size ≡ 0)
      → MunmapOutcome others f pgd m addr len (unmap_after f pgd addr len out)
  unfolding unmap_after
  after (err e, m') (sorted, ends) aligned = (sorted, s, inl (e, refl, refl, refl))
  after (ok n, m') (sorted, inl (e, bad)) aligned = absurd (ground arith)
  after (ok n, m') (sorted, inr (done, view)) aligned =
      let (space, gone) = pages_gone (λ some_len. aligned n some_len refl) in
      (sorted, space, inr (done, λ at l. (view at, gone at l)))

-- For sorted areas, page tables in order, and a range that ends at least a page below 2^39, the
-- whole of do_munmap leaves the areas sorted and the page tables in order. It fails with an error
-- and leaves the page tables as they were, or it succeeds, and exactly the addresses of the pages
-- of the range are gone both from the areas and from the page tables, while every other address
-- below 2^39 keeps its flags and its page.
pub munmap_space-MunmapOutcome :
    {others : ℕ → ℕ} {f : Frames} {pgd : Entries 2} (m : MmStruct) (addr len : ℕ)
    → IsSorted 0 m.mmap
    → IsSpace others f pgd
    → addr + len + page_size ≤ 2 ^ 39
    → MunmapOutcome others f pgd m addr len (munmap_space f pgd m addr len)
unfolding munmap_space
munmap_space-MunmapOutcome m addr len sorted s small =
    after m addr len s small (do_munmap m addr len)
      (do_munmap-Erased m addr len sorted (omega arith))
      (λ n some_len done. do_munmap-aligned m addr len n some_len done)
