-- ===== src/Prelude/Lists.antt =====
-- Lists measured and indexed by native numbers, under the library's names.
use Prim.Native.Nat.{ℕ, zero, suc, ◌+◌}
use mathlib.Core.Path.{◌≡◌, refl}
use mathlib.Core.Bool.{Bool, true, false, not, ◌&&◌, ◌||◌}
use mathlib.Core.List.{List, [], ◌∷◌, ◌++◌}
use native.Mathlib.Omega.{arith}
use mini_os.Prelude.Tests.{◌==◌, if◌then◌else◌}

module _ {ℓ} {A : Type ℓ} where
  abbrev pub length : List A → ℕ
  length [] = 0
  length (x ∷ xs) = suc (length xs)

  abbrev pub get_or : List A → ℕ → A → A
  get_or [] i d = d
  get_or (x ∷ xs) zero d = x
  get_or (x ∷ xs) (suc i) d = get_or xs i d

  -- A write out of bounds changes nothing.
  abbrev pub set : List A → ℕ → A → List A
  set [] i v = []
  set (x ∷ xs) zero v = v ∷ xs
  set (x ∷ xs) (suc i) v = x ∷ set xs i v

  abbrev pub take : ℕ → List A → List A
  take zero xs = []
  take (suc n) [] = []
  take (suc n) (x ∷ xs) = x ∷ take n xs

  abbrev pub drop : ℕ → List A → List A
  drop zero xs = xs
  drop (suc n) [] = []
  drop (suc n) (x ∷ xs) = drop n xs

  pub length-append : (xs ys : List A) → length (xs ++ ys) ≡ length xs + length ys
  length-append [] ys = omega arith
  length-append (x ∷ xs) ys = omega (arith, length-append xs ys)

-- The members of a list of numbers, their removal and their distinctness, as tests.
abbrev pub has : ℕ → List ℕ → Bool
has a [] = false
has a (x ∷ xs) = (a == x) || has a xs

-- Drops the first occurrence.
abbrev pub without : ℕ → List ℕ → List ℕ
without a [] = []
without a (x ∷ xs) = if a == x then xs else x ∷ without a xs

abbrev pub distinct : List ℕ → Bool
distinct [] = true
distinct (x ∷ xs) = not (has x xs) && distinct xs

pub has-without_ne : (a b : ℕ) (xs : List ℕ) → (b == a) ≡ false → has b (without a xs) ≡ has b xs
has-without_ne a b [] n = refl
has-without_ne a b (x ∷ xs) n = ground (arith, has-without_ne a b xs n)

pub has-without_self : (a : ℕ) (xs : List ℕ) → distinct xs ≡ true → has a (without a xs) ≡ false
has-without_self a [] d = refl
has-without_self a (x ∷ xs) d = ground (arith, has-without_self a xs)

pub has-without_le : (a b : ℕ) (xs : List ℕ) → has b xs ≡ false → has b (without a xs) ≡ false
has-without_le a b [] n = refl
has-without_le a b (x ∷ xs) n = ground (arith, has-without_le a b xs)

pub has_of_has-without : (a b : ℕ) (xs : List ℕ) → has b (without a xs) ≡ true → has b xs ≡ true
has_of_has-without a b [] h = absurd (ground arith)
has_of_has-without a b (x ∷ xs) h = ground (arith, has_of_has-without a b xs)

pub distinct-without : (a : ℕ) (xs : List ℕ) → distinct xs ≡ true → distinct (without a xs) ≡ true
distinct-without a [] d = refl
distinct-without a (x ∷ xs) d = ground (arith, distinct-without a xs, has-without_le a x xs)

pub length-without :
    (a : ℕ) (xs : List ℕ) → has a xs ≡ true → suc (length (without a xs)) ≡ length xs
length-without a [] h = absurd (ground arith)
length-without a (x ∷ xs) h = ground (arith, length-without a xs)

pub without_absent : (a : ℕ) (xs : List ℕ) → has a xs ≡ false → without a xs ≡ xs
without_absent a [] h = refl
without_absent a (x ∷ xs) h = ground (arith, without_absent a xs)

pub has-append : (a : ℕ) (xs ys : List ℕ) → has a (xs ++ ys) ≡ (has a xs || has a ys)
has-append a [] ys = refl
has-append a (x ∷ xs) ys = ground (arith, has-append a xs ys)

pub distinct-append_one :
    (a : ℕ) (xs : List ℕ) → distinct xs ≡ true → has a xs ≡ false → distinct (xs ++ a ∷ []) ≡ true
distinct-append_one a [] d h = refl
distinct-append_one a (x ∷ xs) d h =
    ground (arith, has-append x xs (a ∷ []), distinct-append_one a xs)
