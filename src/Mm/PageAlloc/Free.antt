-- ===== src/Mm/PageAlloc/Free.antt =====
-- `buddy_free` of mm/page_alloc.c: merging a freed block with its free buddies.
use mini_os.Prelude.{
  ℕ, zero, suc, ◌+◌, ◌-◌, ◌*◌, ◌/◌, ◌^◌, ◌≤◌, ◌≡◌, ◌⊎◌, inl, inr, refl, ap, ◌∙◌, some, arith, ltb,
  leb, ◌==◌, ==_iff, if◌then◌else◌, Bool-cases, Option-cases, bit_xor, sibling_lem, bit_xor-block,
}
use native.Mathlib.Nat.{pow-suc}
use mini_os.Mm.PageAlloc.{PageAlloc, free_list_add, free_list_remove, merge_up, buddy_free}
use mini_os.Mm.PageAlloc.Invariant.{
  Apart, Apart-symm, IsBlock, InUse, IsValid, pow_pos, free_list_add-IsValid,
  free_list_remove-IsValid, free_after_remove, free_list_add-InUse, free_list_remove-InUse_other,
}
use mini_os.Mm.PageAlloc.Count.{free_total, free_total-add, free_total-remove}

-- The two halves of a block of order `suc o` that starts at `low`.
abbrev Halves : ℕ → ℕ → ℕ → ℕ → Type 0
Halves o p b low = ((low ≡ p) × (b ≡ p + 2 ^ o)) ⊎ ((low ≡ b) × (p ≡ b + 2 ^ o))

-- The block that `buddy_free` goes on with.
lower : ℕ → ℕ → ℕ
lower p b = if ltb b p then b else p

buddy-Halves :
    (o c : ℕ)
    → let p = c * 2 ^ o in
      let b = bit_xor p (2 ^ o) in Halves o p b (lower p b) × (lower p b ≡ c / 2 * 2 ^ suc o)
unfolding lower
buddy-Halves o c = rw (bit_xor-block o c) (elim (sibling_lem c) [
  | inl (even, s) ↦
      let twice : c ≡ c / 2 * 2 = omega arith in
      ground (
        arith,
        pow_pos o,
        ap (λ t. t * 2 ^ o) s,
        ap (λ t. t * 2 ^ o) twice,
        ap (λ t. c / 2 * t) (pow-suc 2 o),
      )
  | inr (odd, s) ↦
      let twice : c ≡ c / 2 * 2 + 1 = omega arith in
      ground (
        arith,
        pow_pos o,
        ap (λ t. t * 2 ^ o) s,
        ap (λ t. t * 2 ^ o) twice,
        ap (λ t. c / 2 * t) (pow-suc 2 o),
      )
])

max_order-remove : (a : PageAlloc) (p o : ℕ) → (free_list_remove a p o).max_order ≡ a.max_order
unfolding free_list_remove
max_order-remove a p o = ground arith

refcount-remove : (a : PageAlloc) (p o : ℕ) → (free_list_remove a p o).refcount ≡ a.refcount
unfolding free_list_remove
refcount-remove a p o = ground arith

-- What freeing the block of order `o` at `p` does to the allocator.
pub record Freed (a : PageAlloc) (p o : ℕ) (a' : PageAlloc) : Type 0 where
  pub valid : IsValid a'
  pub total : free_total a' ≡ free_total a + 2 ^ o
  pub others : (q k : ℕ) → InUse a q k → Apart q k p o → InUse a' q k
  pub counts : a'.refcount ≡ a.refcount

add-Freed :
    {a : PageAlloc} (p o : ℕ)
    → IsValid a
    → IsBlock a p o
    → InUse a p o
    → Freed a p o (free_list_add a p o)
unfolding free_list_add
add-Freed p o v b u = record {
  valid = free_list_add-IsValid v p o b u;
  total = free_total-add v p o b.order;
  others = λ q k. free_list_add-InUse v p o q k;
  counts = refl;
}

-- A range that meets neither half does not meet the whole.
Apart-whole :
    (o p b low q k : ℕ) → Halves o p b low → Apart p o q k → Apart b o q k → Apart low (suc o) q k
Apart-whole o p b low q k h d e = omega (arith, h, d, e, pow-suc 2 o, pow_pos k)

-- One round of the loop: the free buddy leaves its list, and the two halves are one block.
module _ {a : PageAlloc} (p o : ℕ) (v : IsValid a) (b : IsBlock a p o) (u : InUse a p o)
    (room : suc o ≤ a.max_order) (free : a.block_order (bit_xor p (2 ^ o)) ≡ some o) where
  buddy : ℕ
  buddy = bit_xor p (2 ^ o)

  removed : PageAlloc
  removed = free_list_remove a (bit_xor p (2 ^ o)) o

  halves : Halves o p buddy (lower p buddy) × (lower p buddy ≡ b.index / 2 * 2 ^ suc o)
  unfolding buddy
  halves = rw b.aligned (buddy-Halves o b.index)

  merged-IsBlock : IsBlock removed (lower p buddy) (suc o)
  unfolding removed free_list_remove buddy
  merged-IsBlock =
      let other = v.placed buddy o free in
      record {
        order = ground arith;
        index = b.index / 2;
        aligned = halves.1;
        inside = ground (arith, halves.0, b.inside, other.inside, pow-suc 2 o);
      }

  merged-InUse : InUse removed (lower p buddy) (suc o)
  unfolding removed buddy
  merged-InUse q k e =
      let (n, f) = free_after_remove v buddy o free q k e in
      Apart-whole o p buddy (lower p buddy) q k halves.0 (u q k f)
        (v.apart buddy o q k free f (λ same. ground arith))

  merged-Freed : {a' : PageAlloc} → Freed removed (lower p buddy) (suc o) a' → Freed a p o a'
  unfolding removed buddy
  merged-Freed f = record {
    valid = f.valid;
    total = omega (arith, f.total, free_total-remove v buddy o free, pow-suc 2 o);
    others = λ q k w d. f.others q k (free_list_remove-InUse_other v buddy o q k free w) (
        Apart-symm (lower p buddy) (suc o) q k (
          Apart-whole o p buddy (lower p buddy) q k halves.0 (Apart-symm q k p o d)
            (Apart-symm q k buddy o (w buddy o free))));
    counts = f.counts ∙ refcount-remove a buddy o;
  }

merge_up-Freed :
    (rounds : ℕ) {a : PageAlloc} (p o : ℕ)
    → IsValid a
    → IsBlock a p o
    → InUse a p o
    → rounds + o ≡ a.max_order
    → Freed a p o (merge_up rounds a p o)
unfolding merge_up buddy removed lower
merge_up-Freed zero p o v b u r = add-Freed p o v b u
merge_up-Freed (suc rounds) {a} p o v b u r =
    elim (Bool-cases (leb a.pool_pages (bit_xor p (2 ^ o)))) [
      | inl out ↦ rw out (add-Freed p o v b u)
      | inr within ↦ rw within (elim (Option-cases (a.block_order (bit_xor p (2 ^ o)))) [
        | inl busy ↦ rw busy (add-Freed p o v b u)
        | inr (k, e) ↦ rw e (elim (Bool-cases (k == o)) [
          | inr other ↦ rw other (add-Freed p o v b u)
          | inl same ↦ rw same (
              let free = e ∙ ap some ((==_iff k o).0 same) in
              let room : suc o ≤ a.max_order = omega arith in
              merged-Freed p o v b u room free (
                merge_up-Freed rounds (lower p (bit_xor p (2 ^ o))) (suc o)
                  (free_list_remove-IsValid v (bit_xor p (2 ^ o)) o free)
                  (merged-IsBlock p o v b u room free) (merged-InUse p o v b u room free)
                  (omega (arith, max_order-remove a (bit_xor p (2 ^ o)) o))))
        ])
      ])
    ]

-- Freeing a block gives its pages back, keeps the allocator consistent and touches no other block.
pub buddy_free-Freed :
    {a : PageAlloc} (p o : ℕ)
    → IsValid a
    → IsBlock a p o
    → InUse a p o
    → Freed a p o (buddy_free a p o)
unfolding buddy_free
buddy_free-Freed {a} p o v b u = merge_up-Freed (a.max_order - o) p o v b u (omega (arith, b.order))
