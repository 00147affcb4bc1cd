-- ===== src/Prelude/Ring.antt =====
-- A ring of `size` places: the next place, a run of places, and what a write changes of it.
use Prim.Native.Nat.{ℕ, zero, suc, ◌+◌, ◌-◌, ◌≤◌, ◌<◌}
use mathlib.Core.Path.{◌≡◌, refl, ap, ◌∙◌}
use mathlib.Core.Bool.{false}
use mathlib.Core.List.{List, [], ◌∷◌, ◌++◌}
use native.Mathlib.Omega.{arith}
use mini_os.Prelude.Tests.{ltb, leb, ◌==◌, if◌then◌else◌, update}

abbrev pub next_place : (size i : ℕ) → ℕ
next_place size i = if i + 1 == size then 0 else i + 1

-- The `n` values from place `i` on.
abbrev pub run : (size n i : ℕ) → (ℕ → ℕ) → List ℕ
run size zero i f = []
run size (suc n) i f = f i ∷ run size n (next_place size i) f

-- A place past the end is one at the start.
abbrev pub around : (size i : ℕ) → ℕ
around size i = if ltb i size then i else i - size

-- How many places from `i` on come before `h`.
abbrev pub distance : (size i h : ℕ) → ℕ
distance size i h = if leb i h then h - i else size - i + h

module _ (size : ℕ) where
  pub run-snoc :
      (n i : ℕ) (f : ℕ → ℕ)
      → i < size
      → n < size
      → run size (suc n) i f ≡ run size n i f ++ f (around size (i + n)) ∷ []
  run-snoc zero i f h l = ap (λ j. f j ∷ []) (ground arith)
  run-snoc (suc n) i f h l =
      ap (λ bs. f i ∷ bs)
        (run-snoc n (next_place size i) f (ground arith) (omega arith)
          ∙ ap (λ j. run size n (next_place size i) f ++ f j ∷ []) (ground arith))

  pub run-update :
      (n i h b : ℕ) (f : ℕ → ℕ)
      → i < size
      → h < size
      → n ≤ distance size i h
      → run size n i (update f h b) ≡ run size n i f
  run-update zero i h b f l m g = refl
  run-update (suc n) i h b f l m g =
      let apart : (i == h) ≡ false = ground arith in
      rw (apart, run-update n (next_place size i) h b f (ground arith) m (ground arith))
