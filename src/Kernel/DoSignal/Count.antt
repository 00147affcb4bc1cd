-- ===== src/Kernel/DoSignal/Count.antt =====
-- How many bits of a mask are set: what the rounds of `do_signal` of kernel/signal.c use up.
use mini_os.Prelude.{
  ℕ, zero, suc, ◌+◌, ◌≤◌, ◌<◌, ◌≡◌, ◌≢◌, Bool, true, false, refl, sym, arith, ◌==◌, if◌then◌else◌,
  Bool-cases, inl, inr,
}
use mathlib.Core.Path.{subst}

-- How many of the first bits are set.
pub count : ℕ → (ℕ → Bool) → ℕ
count zero f = 0
count (suc n) f = (if f n then 1 else 0) + count n f

pub count-le : (n : ℕ) (f : ℕ → Bool) → count n f ≤ n
unfolding count
count-le zero f = omega arith
count-le (suc n) f = ground (arith, count-le n f)

count-same : (n : ℕ) (f g : ℕ → Bool) → ((i : ℕ) → i < n → g i ≡ f i) → count n g ≡ count n f
unfolding count
count-same zero f g h = refl
count-same (suc n) f g h = rw (h n (omega arith), count-same n f g (λ i l. h i (omega arith)))

pub count-drop :
    (n k : ℕ) (f g : ℕ → Bool)
    → k < n
    → f k ≡ true
    → g k ≡ false
    → ((i : ℕ) → i < n → i ≢ k → g i ≡ f i)
    → suc (count n g) ≡ count n f
unfolding count
count-drop zero k f g l a b h = absurd (omega arith)
count-drop (suc n) k f g l a b h = elim (Bool-cases (n == k)) [
  | inl e ↦
      let at : n ≡ k = ground arith in
      let same = count-same n f g (λ i u. h i (omega arith) (omega arith)) in
      rw (subst (λ x. f x ≡ true) (sym at) a, subst (λ x. g x ≡ false) (sym at) b, same)
        (omega arith)
  | inr e ↦
      let other : n ≢ k = ground arith in
      rw (h n (omega arith) other)
        (omega (arith, count-drop n k f g (omega arith) a b (λ i u. h i (omega arith))))
]
