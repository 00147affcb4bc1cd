-- ===== src/Mm/PageAlloc/Split.antt =====
-- `split_block` of mm/page_alloc.c: cutting a block down to the order asked for.
use mini_os.Prelude.{
  ℕ, zero, suc, ◌+◌, ◌*◌, ◌%◌, ◌^◌, ◌≤◌, ◌≡◌, ◌⊎◌, inl, inr, refl, sym, ap, ◌∙◌, arith, ltb,
  Bool-cases, bit_xor, sibling, sibling_lem, bit_xor-block,
}
use native.Mathlib.Nat.{pow-suc, mul_assoc, mul_comm}
use mini_os.Mm.PageAlloc.{PageAlloc, free_list_add, split_block}
use mini_os.Mm.PageAlloc.Invariant.{
  Apart, IsBlock, InUse, IsValid, pow_pos, free_list_add-IsValid, free_list_add-InUse,
}
use mini_os.Mm.PageAlloc.Count.{free_total, free_total-add}

-- What is left of the block of order `o` at `p` once it is split down to order `k`.
pub record Split (a : PageAlloc) (p o k : ℕ) (a' : PageAlloc) : Type 0 where
  pub valid : IsValid a'
  pub block : IsBlock a' p k
  pub mine : InUse a' p k
  pub others : (q j : ℕ) → InUse a q j → Apart q j p o → InUse a' q j
  pub total : free_total a' + 2 ^ k ≡ free_total a + 2 ^ o
  pub pool : a'.pool_pages ≡ a.pool_pages
  pub counts : a'.refcount ≡ a.refcount

config-add : (a : PageAlloc) (p o : ℕ) → (free_list_add a p o).pool_pages ≡ a.pool_pages
unfolding free_list_add
config-add a p o = refl

counts-add : (a : PageAlloc) (p o : ℕ) → (free_list_add a p o).refcount ≡ a.refcount
unfolding free_list_add
counts-add a p o = refl

added-IsBlock : (a : PageAlloc) (p o q k : ℕ) → IsBlock a q k → IsBlock (free_list_add a p o) q k
unfolding free_list_add
added-IsBlock a p o q k b = record {
  order = b.order;
  index = b.index;
  aligned = b.aligned;
  inside = b.inside;
}

module _ {a : PageAlloc} (p o : ℕ) (v : IsValid a) (b : IsBlock a p (suc o))
    (u : InUse a p (suc o)) where
  upper : bit_xor p (2 ^ o) ≡ p + 2 ^ o
  upper =
      let e : p ≡ b.index * 2 * 2 ^ o =
        b.aligned
        ∙ ap (λ t. b.index * t) (pow-suc 2 o ∙ mul_comm (2 ^ o) 2)
        ∙ sym (mul_assoc b.index 2 (2 ^ o)) in
      rw e (bit_xor-block o (b.index * 2) ∙ next (sibling_lem (b.index * 2)))
    where
      next :
          ((b.index * 2 % 2 ≡ 0) × (sibling (b.index * 2) ≡ b.index * 2 + 1))
            ⊎ ((b.index * 2 % 2 ≡ 1) × (sibling (b.index * 2) + 1 ≡ b.index * 2))
          → sibling (b.index * 2) * 2 ^ o ≡ b.index * 2 * 2 ^ o + 2 ^ o
      next (inl (e, s)) = rw s (omega arith)
      next (inr (e, s)) = absurd (omega arith)

  low-IsBlock : IsBlock a p o
  low-IsBlock = record {
    order = omega (arith, b.order);
    index = b.index * 2;
    aligned = b.aligned ∙ ap (λ t. b.index * t) (pow-suc 2 o) ∙ omega arith;
    inside = omega (arith, b.inside, pow-suc 2 o);
  }

  high-IsBlock : IsBlock a (bit_xor p (2 ^ o)) o
  unfolding low-IsBlock
  high-IsBlock = rw upper (record {
    order = omega (arith, b.order);
    index = b.index * 2 + 1;
    aligned = ap (λ t. t + 2 ^ o) low-IsBlock.aligned ∙ omega arith;
    inside = omega (arith, b.inside, pow-suc 2 o);
  })

  high-InUse : InUse a (bit_xor p (2 ^ o)) o
  high-InUse = rw upper (λ q k e. omega (arith, u q k e, pow-suc 2 o, pow_pos o))

  low-InUse : InUse (free_list_add a (bit_xor p (2 ^ o)) o) p o
  low-InUse =
      free_list_add-InUse v (bit_xor p (2 ^ o)) o p o
        (λ q k e. omega (arith, u q k e, pow-suc 2 o, pow_pos o)) (inl (omega (arith, upper)))

Split-done :
    {a : PageAlloc} (p o k : ℕ) → IsValid a → IsBlock a p o → InUse a p o → k ≡ o → Split a p o k a
Split-done p o k v b u e = rw e (record {
  valid = v;
  block = b;
  mine = u;
  others = λ q j w d. w;
  total = refl;
  pool = refl;
  counts = refl;
})

-- Splitting keeps the first `2 ^ k` pages for the caller and frees the others.
pub split_block-Split :
    (o : ℕ) {a : PageAlloc} (p k : ℕ)
    → IsValid a
    → IsBlock a p o
    → InUse a p o
    → k ≤ o
    → Split a p o k (split_block a p o k)
unfolding split_block
split_block-Split zero p k v b u h = Split-done p 0 k v b u (omega arith)
split_block-Split (suc o) {a} p k v b u h = elim (Bool-cases (ltb k (suc o))) [
  | inr done ↦ rw done (Split-done p (suc o) k v b u (ground arith))
  | inl more ↦ rw more (onward (split_block-Split o p k added low low_mine (ground arith)))
]
  where
    high : ℕ
    high = bit_xor p (2 ^ o)

    b' : IsBlock a high o
    b' = high-IsBlock p o v b u

    added : IsValid (free_list_add a high o)
    added = free_list_add-IsValid v high o b' (high-InUse p o v b u)

    low : IsBlock (free_list_add a high o) p o
    low = let c = low-IsBlock p o v b u in added-IsBlock a high o p o c

    low_mine : InUse (free_list_add a high o) p o
    low_mine = low-InUse p o v b u

    onward : {a' : PageAlloc} → Split (free_list_add a high o) p o k a' → Split a p (suc o) k a'
    onward s = record {
      valid = s.valid;
      block = s.block;
      mine = s.mine;
      others = λ q j w d.
          s.others q j
            (free_list_add-InUse v high o q j w
              (omega (arith, d, upper p o v b u, pow-suc 2 o, pow_pos o)))
            (omega (arith, d, pow-suc 2 o));
      total = omega (arith, s.total, free_total-add v high o b'.order, pow-suc 2 o);
      pool = s.pool ∙ config-add a high o;
      counts = s.counts ∙ counts-add a high o;
    }
