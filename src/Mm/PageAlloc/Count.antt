-- ===== src/Mm/PageAlloc/Count.antt =====
-- How many pages of the pool are free, and what the list operations do to that number.
use mini_os.Prelude.{
  ℕ, zero, suc, ◌+◌, ◌*◌, ◌^◌, ◌≤◌, ◌<◌, ◌≡◌, refl, ap, List, [], ◌∷◌, arith, ◌==◌, Bool-cases, inl,
  inr, update, length, without, length-without, some,
}
use native.Mathlib.Nat.{suc-mul}
use mini_os.Mm.PageAlloc.{PageAlloc, free_list_add, free_list_remove}
use mini_os.Mm.PageAlloc.Invariant.{IsValid, has_of_order}

abbrev pub count : ℕ → (ℕ → List ℕ) → ℕ
count zero f = 0
count (suc n) f = count n f + length (f n) * 2 ^ n

-- The pages of all free blocks together.
abbrev pub free_total : PageAlloc → ℕ
free_total a = count (suc a.max_order) a.free_area

pub count-bare : (n : ℕ) (f : ℕ → List ℕ) → ((j : ℕ) → j < n → f j ≡ []) → count n f ≡ 0
count-bare zero f bare = refl
count-bare (suc n) f bare = omega (
  arith,
  count-bare n f (λ j l. bare j (omega arith)),
  ap (λ q. length q * 2 ^ n) (bare n (omega arith)),
)

count-update_out :
    (n : ℕ) (f : ℕ → List ℕ) (o : ℕ) (xs : List ℕ) → n ≤ o → count n (update f o xs) ≡ count n f
count-update_out zero f o xs h = refl
count-update_out (suc n) f o xs h = ground (arith, count-update_out n f o xs)

count-update :
    (n : ℕ) (f : ℕ → List ℕ) (o : ℕ) (xs : List ℕ)
    → o < n
    → count n (update f o xs) + length (f o) * 2 ^ o ≡ count n f + length xs * 2 ^ o
count-update zero f o xs h = absurd (omega arith)
count-update (suc n) f o xs h = elim (Bool-cases (n == o)) [
  | inl e ↦ ground (arith, count-update_out n f o xs)
  | inr e ↦ ground (arith, count-update n f o xs)
]

module _ {a : PageAlloc} (v : IsValid a) where
  pub free_total-add :
      (p o : ℕ) → o ≤ a.max_order → free_total (free_list_add a p o) ≡ free_total a + 2 ^ o
  unfolding free_list_add
  free_total-add p o h = omega (
    arith,
    count-update (suc a.max_order) a.free_area o (p ∷ a.free_area o) (omega arith),
    suc-mul (length (a.free_area o)) (2 ^ o),
  )

  pub free_total-remove :
      (p o : ℕ)
      → a.block_order p ≡ some o
      → free_total (free_list_remove a p o) + 2 ^ o ≡ free_total a
  unfolding free_list_remove
  free_total-remove p o e = rw (has_of_order v o p e) (
      omega (
        arith,
        count-update (suc a.max_order) a.free_area o (without p (a.free_area o))
            (omega (arith, (v.placed p o e).order)),
        suc-mul (length (without p (a.free_area o))) (2 ^ o),
        ap (λ n. n * 2 ^ o) (length-without p (a.free_area o) (has_of_order v o p e)),
      ))
