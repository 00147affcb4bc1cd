-- ===== src/Mm/PageAlloc/Reclaim.antt =====
-- `free_pages` and `put_page` of mm/page_alloc.c: giving a block back.
use mini_os.Prelude.{
  ℕ, ◌+◌, ◌-◌, ◌*◌, ◌%◌, ◌^◌, ◌<◌, ◌≡◌, ◌≢◌, ◌⊎◌, inl, inr, refl, ap, ◌∙◌, true, false, some, arith,
  ltb, ◌==◌, Bool-cases, update,
}
use native.Mathlib.Nat.{add-mul-mod_self_right}
use mini_os.Prelude.Int.{pos}
use mini_os.Mm.PageAlloc.{
  PageAlloc, word, page_size, addr_to_pfn, pfn_to_addr, pfn_in_pool, addr_in_pool, order_valid,
  free_pages, put_page, buddy_free, shared,
}
use mini_os.Mm.PageAlloc.Invariant.{IsBlock, InUse, IsValid, unlisted, pow_pos}
use mini_os.Mm.PageAlloc.Free.{Freed, buddy_free-Freed}

-- Where the pool lies: page-aligned sizes, no address that wraps, and none that is NULL.
pub record IsMapped (a : PageAlloc) : Type 0 where
  pub size : a.mem_size ≡ a.pool_pages * page_size
  pub start : 0 < a.mem_start
  pub end : a.mem_start + a.mem_size < word

block_in_pool : (a : PageAlloc) (p o : ℕ) → IsBlock a p o → pfn_in_pool a p ≡ true
unfolding pfn_in_pool
block_in_pool a p o b = ground (arith, b.inside, pow_pos o)

module _ {a : PageAlloc} (m : IsMapped a) (p o : ℕ) (b : IsBlock a p o) where
  pub pfn_to_addr_lem : pfn_to_addr a p ≡ a.mem_start + p * page_size
  unfolding pfn_to_addr
  pfn_to_addr_lem = omega (arith, m.size, m.end, b.inside, pow_pos o)

  -- The address of a page of the pool leads back to its number.
  pub addr_to_pfn-pfn_to_addr : addr_to_pfn a (pfn_to_addr a p) ≡ p
  unfolding addr_to_pfn
  addr_to_pfn-pfn_to_addr = rw pfn_to_addr_lem (omega (arith, m.size, m.end, b.inside, pow_pos o))

  size_lem : page_size * 2 ^ o % word ≡ page_size * 2 ^ o
  size_lem = omega (arith, m.size, m.end, b.inside)

  -- A block's address is aligned to its size exactly if the start of the pool is.
  addr_mod : (a.mem_start + p * page_size) % (page_size * 2 ^ o) ≡ a.mem_start % (page_size * 2 ^ o)
  addr_mod =
      let e : p * page_size ≡ b.index * (page_size * 2 ^ o) =
        ap (λ t. t * page_size) b.aligned ∙ omega arith in
      rw e (add-mul-mod_self_right a.mem_start b.index (page_size * 2 ^ o))

  pub addr_in_pool_lem :
      addr_in_pool a (pfn_to_addr a p) o ≡ (a.mem_start % (page_size * 2 ^ o) == 0)
  unfolding addr_in_pool
  addr_in_pool_lem = rw (pfn_to_addr_lem, size_lem, low, high, addr_mod)
    where
      low : ltb (a.mem_start + p * page_size) a.mem_start ≡ false
      low = ground arith

      high :
          ltb
            ((a.mem_start + a.mem_size) % word)
            ((a.mem_start + p * page_size + page_size * 2 ^ o) % word)
          ≡ false
      high = ground (arith, m.size, m.end, b.inside)

  not_null : (pfn_to_addr a p == 0) ≡ false
  not_null = ground (arith, pfn_to_addr_lem, m.start)

  valid_order : order_valid a (pos o) ≡ true
  unfolding order_valid
  valid_order = ground (arith, b.order)

-- The record of counts does not bear on the free lists.
abbrev pub counted : PageAlloc → ℕ → ℕ → PageAlloc
counted a p n = record a { refcount = update a.refcount p n }

pub counted-IsValid : {a : PageAlloc} (p n : ℕ) → IsValid a → IsValid (counted a p n)
counted-IsValid p n v = record {
  pool = v.pool;
  listed = v.listed;
  once = v.once;
  placed = λ q j e.
      let c = v.placed q j e in
      record { order = c.order; index = c.index; aligned = c.aligned; inside = c.inside };
  apart = v.apart;
}

counted-Freed :
    {a : PageAlloc} (p n o : ℕ)
    → IsValid a
    → IsBlock a p o
    → InUse a p o
    → Freed (counted a p n) p o (buddy_free (counted a p n) p o)
counted-Freed p n o v b u =
    buddy_free-Freed p o (counted-IsValid p n v)
      (record { order = b.order; index = b.index; aligned = b.aligned; inside = b.inside }) u

module _ {a : PageAlloc} (v : IsValid a) (m : IsMapped a) (p o : ℕ) (b : IsBlock a p o)
    (u : InUse a p o) where
  -- In a valid allocator whose pool is mapped below the top of the address space, a block in use
  -- with one owner comes back whole if the pool starts at a multiple of the block's size: its pages
  -- are free again, the allocator stays valid and other blocks stay in use.
  pub free_pages-Freed :
      a.refcount p ≡ 1
      → a.mem_start % (page_size * 2 ^ o) ≡ 0
      → Freed (counted a p 0) p o (free_pages a (pfn_to_addr a p) (pos o))
  unfolding free_pages
  free_pages-Freed one start =
      rw
        (
          addr_to_pfn-pfn_to_addr m p o b,
          not_null m p o b,
          valid_order m p o b,
          block_in_pool a p o b,
          addr_in_pool_lem m p o b,
          start,
          unlisted a p o u,
          one,
        )
        (counted-Freed p 0 o v b u)

  -- In a valid allocator whose pool is mapped below the top of the address space, freeing a block
  -- in use does nothing if the pool does not start at a multiple of the block's size, whoever holds
  -- it.
  pub free_pages-misaligned :
      a.mem_start % (page_size * 2 ^ o) ≢ 0 → free_pages a (pfn_to_addr a p) (pos o) ≡ a
  unfolding free_pages
  free_pages-misaligned start =
      let off : (a.mem_start % (page_size * 2 ^ o) == 0) ≡ false = ground arith in
      rw (
        addr_to_pfn-pfn_to_addr m p o b,
        not_null m p o b,
        valid_order m p o b,
        block_in_pool a p o b,
        addr_in_pool_lem m p o b,
        off,
      )

  -- A block with several owners is left alone.
  pub free_pages-shared : shared (a.refcount p) ≡ true → free_pages a (pfn_to_addr a p) (pos o) ≡ a
  unfolding free_pages
  free_pages-shared more = ground (arith, addr_to_pfn-pfn_to_addr m p o b)

-- In a valid allocator `put_page` on a page in use with a positive 32-bit count counts one owner
-- less; the last one frees the page.
pub put_page-Freed :
    {a : PageAlloc} (p : ℕ)
    → IsValid a
    → IsBlock a p 0
    → InUse a p 0
    → 0 < a.refcount p
    → a.refcount p < 2 ^ 32
    → let left = a.refcount p - 1 in
      ((0 < left) × (put_page a (some p) ≡ counted a p left))
      ⊎ ((left ≡ 0) × Freed (counted a p 0) p 0 (put_page a (some p)))
unfolding put_page
put_page-Freed {a} p v b u low high =
    let drop : (a.refcount p + 2 ^ 32 - 1) % 2 ^ 32 ≡ a.refcount p - 1 = omega arith in
    rw drop (elim (Bool-cases (a.refcount p - 1 == 0)) [
      | inl last ↦
          let z : a.refcount p - 1 ≡ 0 = ground arith in
          rw (z, block_in_pool a p 0 b) (inr (refl, counted-Freed p 0 0 v b u))
      | inr more ↦ rw more (inl (ground arith, refl))
    ])
