-- ===== src/Mm/PageAlloc/Alloc.antt =====
-- `alloc_pages` of mm/page_alloc.c: taking a block off the free lists and splitting it.
use mini_os.Prelude.{
  ℕ, zero, suc, ◌+◌, ◌-◌, ◌^◌, ◌≤◌, ◌<◌, ◌≡◌, ◌⊎◌, inl, inr, refl, ap, ◌∙◌, true, false, Option,
  none, some, List, [], ◌∷◌, arith, leb, ◌==◌, ==_iff, if◌then◌else◌, Bool-cases, update, has,
}
use mathlib.Core.Path.{fun_ext}
use native.Mathlib.Nat.{pow-le-pow_right}
use mini_os.Prelude.Int.{pos}
use mini_os.Mm.PageAlloc.{
  PageAlloc, free_list_remove, free_list_pop, split_block, take_block, alloc_from, alloc_pages,
  is_empty, pfn_to_addr, order_valid,
}
use mini_os.Mm.PageAlloc.Invariant.{
  Apart, IsBlock, InUse, IsValid, pow_pos, unlisted, order_of_has, free_list_remove-IsValid,
  free_list_remove-InUse, free_list_remove-InUse_other,
}
use mini_os.Mm.PageAlloc.Count.{free_total, free_total-remove}
use mini_os.Mm.PageAlloc.Split.{Split, split_block-Split}

refcount-remove : (a : PageAlloc) (p o : ℕ) → (free_list_remove a p o).refcount ≡ a.refcount
unfolding free_list_remove
refcount-remove a p o = ground arith

removed-IsBlock :
    (a : PageAlloc) (p o q k : ℕ) → IsBlock a q k → IsBlock (free_list_remove a p o) q k
unfolding free_list_remove
removed-IsBlock a p o q k b = elim (Bool-cases (has p (a.free_area o))) [
  | inl e ↦
      rw e (record { order = b.order; index = b.index; aligned = b.aligned; inside = b.inside })
  | inr e ↦ rw e b
]

nil_of_is_empty : (xs : List ℕ) → is_empty xs ≡ true → xs ≡ []
unfolding is_empty
nil_of_is_empty [] e = refl
nil_of_is_empty (x ∷ xs) e = absurd (ground arith)

-- What handing out a block of order `k` at `p` does to the allocator.
pub record Allocated (a : PageAlloc) (p k : ℕ) (a' : PageAlloc) : Type 0 where
  pub valid : IsValid a'
  pub block : IsBlock a' p k
  pub mine : InUse a' p k
  -- a block that was in use is another one, and stays in use
  pub others : (q j : ℕ) → InUse a q j → Apart q j p k × InUse a' q j
  pub total : free_total a' + 2 ^ k ≡ free_total a
  pub counts : (q : ℕ) → a'.refcount q ≡ (if q == p then 1 else a.refcount q)

pop-remove :
    (a : PageAlloc) (o p : ℕ) (rest : List ℕ)
    → a.free_area o ≡ p ∷ rest
    → free_list_pop a o ≡ (p, free_list_remove a p o)
unfolding free_list_pop free_list_remove
pop-remove a o p rest e = rw (e, self p)
  where
    self : (n : ℕ) → (n == n) ≡ true
    self n = ground arith

-- The last writes of `alloc_pages`: the recorded order is already -1, and the count becomes 1.
handed : PageAlloc → ℕ → PageAlloc
handed s p = record s {
  block_order = update s.block_order p none;
  refcount = update s.refcount p 1;
}

handed-Allocated :
    {a s : PageAlloc} (p o k : ℕ)
    → IsValid a
    → k ≤ o
    → a.block_order p ≡ some o
    → Split (free_list_remove a p o) p o k s
    → Allocated a p k (handed s p)
unfolding handed
handed-Allocated {a} {s} p o k v h er sp =
    let off : s.block_order p ≡ none = unlisted s p k sp.mine in
    let same : update s.block_order p none ≡ s.block_order = fun_ext (λ q. ground (arith, off)) in
    rw same (record {
      valid = record {
        pool = sp.valid.pool;
        listed = sp.valid.listed;
        once = sp.valid.once;
        placed = λ q j e.
            let c = sp.valid.placed q j e in
            record { order = c.order; index = c.index; aligned = c.aligned; inside = c.inside };
        apart = sp.valid.apart;
      };
      block = record {
        order = sp.block.order;
        index = sp.block.index;
        aligned = sp.block.aligned;
        inside = sp.block.inside;
      };
      mine = sp.mine;
      others = λ q j u. (
        omega (arith, u p o er, pow-le-pow_right {n = 2} (omega arith) h),
        sp.others q j (free_list_remove-InUse_other v p o q j er u) (u p o er),
      );
      total = omega (arith, sp.total, free_total-remove v p o er);
      counts = λ q. ap (λ f. if q == p then 1 else f q) (sp.counts ∙ refcount-remove a p o);
    })

take_block-handed :
    (a : PageAlloc) (o k p : ℕ) (rest : List ℕ)
    → a.free_area o ≡ p ∷ rest
    → leb a.pool_pages p ≡ false
    → take_block a o k
      ≡ (some (pfn_to_addr a p), handed (split_block (free_list_remove a p o) p o k) p)
unfolding take_block handed
take_block-handed a o k p rest e l = rw (pop-remove a o p rest e, l)

-- The outcome of a search that found a block of order `k`.
abbrev pub Handed : PageAlloc → ℕ → Option ℕ × PageAlloc → Type 0
Handed a k (r, a') = (p : ℕ) × (r ≡ some (pfn_to_addr a p)) × Allocated a p k a'

below_pool : (a : PageAlloc) (p o : ℕ) → IsBlock a p o → leb a.pool_pages p ≡ false
below_pool a p o b = ground (arith, b.inside, pow_pos o)

take_block-Handed :
    (a : PageAlloc) (o k : ℕ)
    → IsValid a
    → k ≤ o
    → is_empty (a.free_area o) ≡ false
    → Handed a k (take_block a o k)
unfolding is_empty
take_block-Handed a o k v h e = go (a.free_area o) refl e
  where
    go : (xs : List ℕ) → a.free_area o ≡ xs → is_empty xs ≡ false → Handed a k (take_block a o k)
    go [] f n = absurd (ground arith)
    go (p ∷ rest) f n =
        let er : a.block_order p ≡ some o = order_of_has v o p (rw f (ground arith)) in
        let b = v.placed p o er in
        let r = free_list_remove-IsValid v p o er in
        let b' : IsBlock (free_list_remove a p o) p o = removed-IsBlock a p o p o b in
        rw (take_block-handed a o k p rest f (below_pool a p o b)) (
          p,
          refl,
          handed-Allocated p o k v h er
              (split_block-Split o p k r b' (free_list_remove-InUse v p o er) h),
        )

-- No block of order `k` or more is free.
abbrev pub NoneFree : PageAlloc → ℕ → Type 0
NoneFree a k = (o : ℕ) → k ≤ o → o ≤ a.max_order → a.free_area o ≡ []

-- What `alloc_pages` may answer to a request of order `k`.
abbrev pub Outcome : PageAlloc → ℕ → Option ℕ × PageAlloc → Type 0
Outcome a k out = Handed a k out ⊎ ((out ≡ (none, a)) × NoneFree a k)

alloc_from-Outcome :
    (rounds : ℕ) (a : PageAlloc) (o k : ℕ)
    → IsValid a
    → k ≤ o
    → a.max_order < rounds + o
    → ((j : ℕ) → k ≤ j → j < o → a.free_area j ≡ [])
    → Outcome a k (alloc_from rounds a o k)
unfolding alloc_from
alloc_from-Outcome zero a o k v h enough seen = inr (refl, λ j l m. seen j l (omega arith))
alloc_from-Outcome (suc rounds) a o k v h enough seen =
    elim (Bool-cases (is_empty (a.free_area o))) [
      | inr found ↦ rw found (inl (take_block-Handed a o k v h found))
      | inl bare ↦ rw bare (
          alloc_from-Outcome rounds a (suc o) k v (omega arith) (omega arith) λ j l m.
            elim (Bool-cases (j == o)) [
              | inl same ↦ rw ((==_iff j o).0 same) (nil_of_is_empty (a.free_area o) bare)
              | inr other ↦ seen j l (ground arith)
            ])
    ]

-- In a valid allocator a request of order at least 0 is answered by a block of that order, which
-- meets no block in use, is counted once and takes exactly its pages from the free ones, while
-- blocks in use stay in use and the allocator stays valid; or, where no free block of that order or
-- above is there, by NULL and no change.
pub alloc_pages-Outcome :
    (a : PageAlloc) (order : ℕ) → IsValid a → Outcome a order (alloc_pages a (pos order))
unfolding alloc_pages order_valid
alloc_pages-Outcome a k v = elim (Bool-cases (leb k a.max_order)) [
  | inl good ↦ rw good (
      alloc_from-Outcome (a.max_order + 1 - k) a k k v (omega arith) (omega arith)
        (λ j l m. absurd (omega arith)))
  | inr bad ↦ rw bad (inr (refl, λ o l m. absurd (ground arith)))
]
