-- ===== src/Mm/PageAlloc/Invariant.antt =====
-- The invariant of mm/page_alloc.c, and the list operations that every caller goes through.
use mini_os.Prelude.{
  ℕ, ◌+◌, ◌*◌, ◌^◌, ◌≤◌, ◌≡◌, ◌≢◌, ◌⊎◌, inl, inr, refl, sym, ap, ◌∙◌, true, false, Option, update,
  none, some, arith, ◌==◌, ==_iff, has, distinct, has-without_ne, has-without_self,
  distinct-without,
}
use native.Mathlib.Nat.{one-le-pow}
use mini_os.Mm.PageAlloc.{PageAlloc, order_is, free_list_add, free_list_remove}

-- The ranges of two blocks do not meet: `2 ^ o` pages from `p` and `2 ^ k` pages from `q`.
abbrev pub Apart : ℕ → ℕ → ℕ → ℕ → Type 0
Apart p o q k = (p + 2 ^ o ≤ q) ⊎ (q + 2 ^ k ≤ p)

-- A block of order `o` at page `p`: aligned to its size, and within the pool.
pub record IsBlock (a : PageAlloc) (p o : ℕ) : Type 0 where
  pub order : o ≤ a.max_order
  pub index : ℕ
  pub aligned : p ≡ index * 2 ^ o
  pub inside : p + 2 ^ o ≤ a.pool_pages

-- No page of the block at `p` is free: such a block is in use.
abbrev pub InUse : PageAlloc → ℕ → ℕ → Type 0
InUse a p o = (q k : ℕ) → a.block_order q ≡ some k → Apart p o q k

pub record IsValid (a : PageAlloc) : Type 0 where
  pub pool : a.pool_pages ≡ 2 ^ a.max_order
  -- a block is on the chain of its recorded order and on no other
  pub listed : (o p : ℕ) → has p (a.free_area o) ≡ order_is (a.block_order p) o
  pub once : (o : ℕ) → distinct (a.free_area o) ≡ true
  pub placed : (p o : ℕ) → a.block_order p ≡ some o → IsBlock a p o
  pub apart :
      (p o q k : ℕ) → a.block_order p ≡ some o → a.block_order q ≡ some k → p ≢ q → Apart p o q k

pub pow_pos : (k : ℕ) → 1 ≤ 2 ^ k
pow_pos k = one-le-pow k 2 (omega arith)

pub Apart-symm : (p o q k : ℕ) → Apart p o q k → Apart q k p o
Apart-symm p o q k (inl h) = inr h
Apart-symm p o q k (inr h) = inl h

-- A block in use has no order recorded.
pub unlisted : (a : PageAlloc) (p o : ℕ) → InUse a p o → a.block_order p ≡ none
unlisted a p o u = go (a.block_order p) refl
  where
    go : (b : Option ℕ) → a.block_order p ≡ b → b ≡ none
    go none e = refl
    go (some k) e = absurd (omega (arith, u p k e, pow_pos k, pow_pos o))

-- What an entry of an updated array says.
abbrev Written : (ℕ → Option ℕ) → ℕ → ℕ → Option ℕ → ℕ → Type 0
Written f p q w k = ((q ≡ p) × (w ≡ some k)) ⊎ (((q == p) ≡ false) × (f q ≡ some k))

update_cases :
    (f : ℕ → Option ℕ) (p q : ℕ) (w : Option ℕ) (k : ℕ)
    → update f p w q ≡ some k
    → Written f p q w k
update_cases f p q w k e = ground arith

module _ {a : PageAlloc} (v : IsValid a) where
  pub order_of_has : (o p : ℕ) → has p (a.free_area o) ≡ true → a.block_order p ≡ some o
  order_of_has o p h = go (a.block_order p) (sym (v.listed o p) ∙ h)
    where
      go : (b : Option ℕ) → order_is b o ≡ true → b ≡ some o
      go none e = absurd (ground arith)
      go (some k) e = ap some ((==_iff k o).0 e)

  pub has_of_order : (o p : ℕ) → a.block_order p ≡ some o → has p (a.free_area o) ≡ true
  has_of_order o p e = v.listed o p ∙ ground arith

  pub free_list_add-IsValid :
      (p o : ℕ) → IsBlock a p o → InUse a p o → IsValid (free_list_add a p o)
  unfolding free_list_add
  free_list_add-IsValid p o b u =
      let off : a.block_order p ≡ none = unlisted a p o u in
      record {
        pool = v.pool;
        listed = λ k q. ground (arith, v.listed k q, off);
        once = λ k. ground (arith, v.once k, v.once o, v.listed o p, off);
        placed = λ q k e. placed' q k (update_cases a.block_order p q (some o) k e);
        apart = λ q k r l e f n.
            apart' q k r l n (update_cases a.block_order p q (some o) k e)
              (update_cases a.block_order p r (some o) l f);
      }
    where
      placed' : (q k : ℕ) → Written a.block_order p q (some o) k → IsBlock (free_list_add a p o) q k
      placed' q k (inl (e, f)) = record {
        order = ground (arith, b.order);
        index = b.index;
        aligned = ground (arith, b.aligned);
        inside = ground (arith, b.inside);
      }
      placed' q k (inr (n, e)) =
          let c = v.placed q k e in
          record { order = c.order; index = c.index; aligned = c.aligned; inside = c.inside }

      apart' :
          (q k r l : ℕ)
          → q ≢ r
          → Written a.block_order p q (some o) k
          → Written a.block_order p r (some o) l
          → Apart q k r l
      apart' q k r l n (inl (e, f)) (inl (g, h)) = absurd (n (e ∙ sym g))
      apart' q k r l n (inl (e, f)) (inr (g, h)) = ground (arith, u r l h)
      apart' q k r l n (inr (g, h)) (inl (e, f)) = ground (arith, u q k h)
      apart' q k r l n (inr (e, f)) (inr (g, h)) = v.apart q k r l f h n

  -- The blocks that are free after a removal were free before, and are not the one removed.
  pub free_after_remove :
      (p o : ℕ)
      → a.block_order p ≡ some o
      → (q k : ℕ) → (free_list_remove a p o).block_order q ≡ some k
      → ((q == p) ≡ false) × (a.block_order q ≡ some k)
  unfolding free_list_remove
  free_after_remove p o e q k f = ground (arith, has_of_order o p e)

  -- A block in use stays so when a block that it does not meet is freed, or another is taken.
  pub free_list_add-InUse :
      (p o q k : ℕ) → InUse a q k → Apart q k p o → InUse (free_list_add a p o) q k
  unfolding free_list_add
  free_list_add-InUse p o q k u d r l e = elim (update_cases a.block_order p r (some o) l e) [
    | inl (f, g) ↦ ground arith
    | inr (f, g) ↦ u r l g
  ]

  pub free_list_remove-InUse_other :
      (p o q k : ℕ) → a.block_order p ≡ some o → InUse a q k → InUse (free_list_remove a p o) q k
  free_list_remove-InUse_other p o q k e u r l f = u r l (free_after_remove p o e r l f).1

  pub free_list_remove-IsValid :
      (p o : ℕ) → a.block_order p ≡ some o → IsValid (free_list_remove a p o)
  unfolding free_list_remove
  free_list_remove-IsValid p o e = rw (has_of_order o p e) (record {
    pool = v.pool;
    listed = λ k q. ground (
      arith,
      v.listed k q,
      v.once o,
      has-without_ne p q (a.free_area o),
      has-without_self p (a.free_area o),
    );
    once = λ k. ground (arith, v.once k, v.once o, distinct-without p (a.free_area o));
    placed = λ q k f.
        let c = v.placed q k (free_after_remove' q k f).1 in
        record { order = c.order; index = c.index; aligned = c.aligned; inside = c.inside };
    apart = λ q k r l f g n.
        v.apart q k r l (free_after_remove' q k f).1 (free_after_remove' r l g).1 n;
  })
    where
      free_after_remove' :
          (q k : ℕ)
          → update a.block_order p none q ≡ some k
          → ((q == p) ≡ false) × (a.block_order q ≡ some k)
      free_after_remove' q k f = ground arith

  -- What is taken off its list is in use from then on.
  pub free_list_remove-InUse :
      (p o : ℕ) → a.block_order p ≡ some o → InUse (free_list_remove a p o) p o
  free_list_remove-InUse p o e q k f =
      let (n, g) = free_after_remove p o e q k f in v.apart p o q k e g (λ same. ground arith)
