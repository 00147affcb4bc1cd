-- ===== src/Mm/PageAlloc/Init.antt =====
-- `page_alloc_init` of mm/page_alloc.c: the pool at the start.
use mini_os.Prelude.{
  ℕ, zero, suc, ◌+◌, ◌-◌, ◌*◌, ◌/◌, ◌%◌, ◌^◌, ◌≤◌, ◌<◌, ◌≡◌, ◌≢◌, inl, inr, refl, ◌∙◌, false, none,
  some, [], arith, ltb, leb, ◌==◌, Bool-cases,
}
use native.Mathlib.Nat.{pow-suc, pow-le-pow_right}
use native.Mathlib.Decide.{dec_lt}
use mini_os.Mm.PageAlloc.{
  PageAlloc, word, max_pages, page_size, virt_mem_end, floor_log2, page_alloc_init, free_list_add,
}
use mini_os.Mm.PageAlloc.Invariant.{IsBlock, IsValid, free_list_add-IsValid}
use mini_os.Mm.PageAlloc.Count.{count, free_total, free_total-add}
use mini_os.Mm.PageAlloc.Reclaim.{IsMapped}

floor_log2_bounds :
    (fuel n : ℕ)
    → 0 < n
    → n < 2 ^ fuel
    → (2 ^ floor_log2 fuel n ≤ n) × (n < 2 * 2 ^ floor_log2 fuel n)
unfolding floor_log2
floor_log2_bounds zero n low high = absurd (omega arith)
floor_log2_bounds (suc fuel) n low high = elim (Bool-cases (ltb n 2)) [
  | inl small ↦ rw small (ground arith)
  | inr large ↦
      rw large
        (halved _ (floor_log2_bounds fuel (n / 2) (ground arith) (omega (arith, pow-suc 2 fuel))))
]
  where
    halved : (k : ℕ) → (2 ^ k ≤ n / 2) × (n / 2 < 2 * 2 ^ k) → (2 ^ suc k ≤ n) × (n < 2 * 2 ^ suc k)
    halved k h = omega (arith, h.0, h.1, pow-suc 2 k)

count-nil : (n : ℕ) → count n (λ o. []) ≡ 0
count-nil zero = refl
count-nil (suc n) = omega (arith, count-nil n)

-- A pool of which no block is free yet.
module _ (mem_start m : ℕ) where
  abbrev pub bare : PageAlloc
  bare = record {
    free_area = λ o. [];
    mem_start = mem_start;
    mem_size = 2 ^ m * page_size;
    max_order = m;
    pool_pages = 2 ^ m;
    block_order = λ pfn. none;
    refcount = λ pfn. 0;
  }

  nothing_free : (q k : ℕ) → bare.block_order q ≢ some k
  nothing_free q k e = ground arith

  pub bare-IsValid : IsValid bare
  bare-IsValid = record {
    pool = refl;
    listed = λ o p. refl;
    once = λ o. refl;
    placed = λ p o e. absurd (nothing_free p o e);
    apart = λ p o q k e f n. absurd (nothing_free p o e);
  }

  pub whole-IsBlock : IsBlock bare 0 m
  whole-IsBlock = record {
    order = omega arith;
    index = 0;
    aligned = omega arith;
    inside = omega arith;
  }

  whole-IsValid : IsValid (free_list_add bare 0 m)
  whole-IsValid =
      free_list_add-IsValid bare-IsValid 0 m whole-IsBlock (λ q k e. absurd (nothing_free q k e))

  free_total-whole : free_total (free_list_add bare 0 m) ≡ 2 ^ m
  free_total-whole =
      free_total-add bare-IsValid 0 m (omega arith) ∙ omega (arith, count-nil (suc m))

  whole-IsMapped :
      0 < mem_start → mem_start + 2 ^ m * page_size < word → IsMapped (free_list_add bare 0 m)
  unfolding free_list_add
  whole-IsMapped s e = record { size = refl; start = s; end = e }

abbrev base : ℕ → ℕ
base start = (start + page_size - 1) % word / page_size * page_size

abbrev pages : ℕ → ℕ
pages start = (virt_mem_end - base start) / page_size

-- What is said of the allocator after the start-up.
pub record Started (start : ℕ) (a : PageAlloc) : Type 0 where
  pub valid : IsValid a
  pub mapped : IsMapped a
  pub free : free_total a ≡ a.pool_pages
  pub above : start ≤ a.mem_start
  pub below : a.mem_start + a.mem_size ≤ virt_mem_end
  pub most : (virt_mem_end - a.mem_start) / page_size < 2 * a.pool_pages
  pub lists : a.max_order ≤ 15

module _ (start : ℕ) (low : virt_mem_end - max_pages * page_size ≤ start)
    (high : start + 2 * page_size ≤ virt_mem_end) where
  base_bounds : (start ≤ base start) × (base start < start + page_size)
  base_bounds = omega arith

  pages_bounds : (0 < pages start) × (pages start ≤ max_pages)
  pages_bounds = omega (arith, base_bounds)

  init-whole :
      page_alloc_init start
      ≡ free_list_add
          (bare (base start) (floor_log2 64 (pages start)))
          0
          (floor_log2 64 (pages start))
  unfolding page_alloc_init
  init-whole = rw (past, some_pages)
    where
      past : leb virt_mem_end (base start) ≡ false
      past = ground (arith, base_bounds)

      some_pages : (pages start == 0) ≡ false
      some_pages = ground (arith, pages_bounds)

  log_bounds :
      (2 ^ floor_log2 64 (pages start) ≤ pages start)
      × (pages start < 2 * 2 ^ floor_log2 64 (pages start))
  log_bounds = floor_log2_bounds 64 (pages start) pages_bounds.0 (omega (arith, pages_bounds))

  log_small : floor_log2 64 (pages start) ≤ 15
  log_small = elim (dec_lt 15 (floor_log2 64 (pages start))) [
    | no small ↦ omega arith
    | yes large ↦
        absurd
          (omega (arith, log_bounds, pages_bounds, pow-le-pow_right {n = 2} (omega arith) large))
  ]

  -- After the start-up with at least one page of RAM above the kernel's image, the allocator is
  -- valid, its pool lies between the image's end and the end of RAM, all of it is free, it takes
  -- more than half of the whole pages that there are, and no order is past the sixteen lists.
  pub page_alloc_init-Started : Started start (page_alloc_init start)
  unfolding free_list_add
  page_alloc_init-Started =
      rw init-whole (started (floor_log2 64 (pages start)) log_bounds log_small)
    where
      started :
          (m : ℕ)
          → (2 ^ m ≤ pages start) × (pages start < 2 * 2 ^ m)
          → m ≤ 15
          → Started start (free_list_add (bare (base start) m) 0 m)
      started m (fits, most) small = record {
        valid = whole-IsValid (base start) m;
        mapped =
            whole-IsMapped (base start) m (omega (arith, base_bounds)) (omega (arith, base_bounds));
        free = free_total-whole (base start) m;
        above = base_bounds.0;
        below = omega (arith, base_bounds);
        most = most;
        lists = small;
      }
