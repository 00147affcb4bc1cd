-- ===== src/Prelude/Bits.antt =====
-- The native bit operations at variables, bit by bit, and the C words built from them.
use Prim.Native.Nat.{ℕ, zero, suc, ◌+◌, ◌-◌, ◌*◌, ◌/◌, ◌%◌, ◌^◌, ◌≤◌, ◌<◌, min, max, digits, differ}
use Prim.Native.Nat.{bit_and, bit_or, bit_xor, bit_and-bitwise, bit_or-bitwise, bit_xor-bitwise}
use mathlib.Core.Path.{◌≡◌, refl, ◌∙◌}
use mathlib.Core.Bool.{Bool, false, not, ◌&&◌, ◌||◌}
use mathlib.Core.Logic.{◌⊎◌}
use native.Mathlib.Omega.{arith}
use native.Mathlib.Nat.{pow-suc, mul-one, mul_assoc, one-le-pow}
use mini_os.Prelude.Tests.{◌==◌, if◌then◌else◌}

-- A function of two numbers by their digits, where the first number may run out early.
module _ (z : ℕ → ℕ) (f : ℕ → ℕ → ℕ) (run_out : (b : ℕ) → z b ≡ z (b / 2) * 2 + f 0 (b % 2)) where
  digits-zero : (n b : ℕ) → digits z f n 0 b ≡ z b
  digits-zero zero b = refl
  digits-zero (suc n) b = refl

  -- Any fuel that covers the first number is as good as another.
  covered : (x a y b : ℕ) → a ≤ x → a ≤ y → digits z f x a b ≡ digits z f y a b
  covered x zero y b l r = omega (arith, digits-zero x b, digits-zero y b)
  covered zero (suc a) y b l r = absurd (omega arith)
  covered (suc x) (suc a) zero b l r = absurd (omega arith)
  covered (suc x) (suc a) (suc y) b l r =
      let half = covered x (suc a / 2) y (b / 2) (omega arith) (omega arith) in omega (arith, half)

  digits_step :
      (a b : ℕ) → digits z f a a b ≡ digits z f (a / 2) (a / 2) (b / 2) * 2 + f (a % 2) (b % 2)
  digits_step zero b = run_out b
  digits_step (suc a) b =
      omega (arith, covered a (suc a / 2) (suc a / 2) (b / 2) (omega arith) (omega arith))

pub bit_and_step : (a b : ℕ) → bit_and a b ≡ bit_and (a / 2) (b / 2) * 2 + min (a % 2) (b % 2)
bit_and_step a b = omega (
  arith,
  bit_and-bitwise a b,
  bit_and-bitwise (a / 2) (b / 2),
  digits_step (λ b. zero) min (λ b. omega arith) a b,
)

pub bit_or_step : (a b : ℕ) → bit_or a b ≡ bit_or (a / 2) (b / 2) * 2 + max (a % 2) (b % 2)
bit_or_step a b = omega (
  arith,
  bit_or-bitwise a b,
  bit_or-bitwise (a / 2) (b / 2),
  digits_step (λ b. b) max (λ b. omega arith) a b,
)

pub bit_xor_step : (a b : ℕ) → bit_xor a b ≡ bit_xor (a / 2) (b / 2) * 2 + differ (a % 2) (b % 2)
bit_xor_step a b = omega (
  arith,
  bit_xor-bitwise a b,
  bit_xor-bitwise (a / 2) (b / 2),
  digits_step (λ b. b) differ (λ b. omega arith) a b,
)

zero-bit_xor : (b : ℕ) → bit_xor 0 b ≡ b
zero-bit_xor b = omega (arith, bit_xor-bitwise 0 b)

differ-zero : (x : ℕ) → differ x 0 ≡ x
differ-zero zero = refl
differ-zero (suc x) = refl

bit_xor-zero_fuel : (n a : ℕ) → a ≤ n → bit_xor a 0 ≡ a
bit_xor-zero_fuel n zero h = zero-bit_xor 0
bit_xor-zero_fuel zero (suc a) h = absurd (omega arith)
bit_xor-zero_fuel (suc n) (suc a) h = omega (
  arith,
  bit_xor_step (suc a) 0,
  differ-zero (suc a % 2),
  bit_xor-zero_fuel n (suc a / 2) (omega arith),
)

pub bit_xor-zero : (a : ℕ) → bit_xor a 0 ≡ a
bit_xor-zero a = bit_xor-zero_fuel a a (omega arith)

-- Bit `i` of a number.
pub test_bit : ℕ → ℕ → Bool
test_bit m zero = m % 2 == 1
test_bit m (suc i) = test_bit (m / 2) i

pub test_bit-and : (a b i : ℕ) → test_bit (bit_and a b) i ≡ (test_bit a i && test_bit b i)
unfolding test_bit
test_bit-and a b zero = ground (arith, bit_and_step a b)
test_bit-and a b (suc i) = rw (half (bit_and_step a b)) (test_bit-and (a / 2) (b / 2) i)
  where
    half : {x q : ℕ} → x ≡ q * 2 + min (a % 2) (b % 2) → x / 2 ≡ q
    half e = omega arith

pub test_bit-or : (a b i : ℕ) → test_bit (bit_or a b) i ≡ (test_bit a i || test_bit b i)
unfolding test_bit
test_bit-or a b zero = ground (arith, bit_or_step a b)
test_bit-or a b (suc i) = rw (half (bit_or_step a b)) (test_bit-or (a / 2) (b / 2) i)
  where
    half : {x q : ℕ} → x ≡ q * 2 + max (a % 2) (b % 2) → x / 2 ≡ q
    half e = omega arith

-- `~x` on `w` bits.
unfoldable pub complement : ℕ → ℕ → ℕ
complement w x = 2 ^ w - 1 - x

pub test_bit-complement :
    (w x i : ℕ) → x < 2 ^ w → i < w → test_bit (complement w x) i ≡ not (test_bit x i)
unfolding test_bit complement
test_bit-complement zero x i h k = absurd (omega arith)
test_bit-complement (suc w) x zero h k = ground (arith, pow-suc 2 w)
test_bit-complement (suc w) x (suc i) h k =
    rw (half x (2 ^ w) (pow-suc 2 w) h)
      (test_bit-complement w (x / 2) i (omega (arith, pow-suc 2 w)) (omega arith))
  where
    half : (x p : ℕ) {q : ℕ} → q ≡ p * 2 → x < q → (q - 1 - x) / 2 ≡ p - 1 - x / 2
    half x p e l = omega arith

pub test_bit-zero : (i : ℕ) → test_bit 0 i ≡ false
unfolding test_bit
test_bit-zero zero = refl
test_bit-zero (suc i) = test_bit-zero i

pub test_bit-pow : (k i : ℕ) → test_bit (2 ^ k) i ≡ (k == i)
unfolding test_bit
test_bit-pow zero zero = refl
test_bit-pow zero (suc i) = rw (test_bit-zero i) (ground arith)
test_bit-pow (suc k) zero = ground (arith, pow-suc 2 k)
test_bit-pow (suc k) (suc i) = rw (half (pow-suc 2 k), test_bit-pow k i) (ground arith)
  where
    half : {p q : ℕ} → q ≡ p * 2 → q / 2 ≡ p
    half e = omega arith

-- No bit set, and some bit set.
pub zero_of_test_bit : (w x : ℕ) → x < 2 ^ w → ((i : ℕ) → i < w → test_bit x i ≡ false) → x ≡ 0
unfolding test_bit
zero_of_test_bit zero x h none_set = omega arith
zero_of_test_bit (suc w) x h none_set =
    let low : (x % 2 == 1) ≡ false = none_set 0 (omega arith) in
    let rest : x / 2 ≡ 0 =
      zero_of_test_bit w (x / 2) (omega (arith, pow-suc 2 w))
        (λ i l. none_set (suc i) (omega arith)) in
    ground arith

-- The other half of the pair that the block numbered `c` belongs to.
pub sibling : ℕ → ℕ
sibling c = bit_xor c 1

differ-one : (x : ℕ) → x < 2 → differ x 1 ≡ 1 - x
differ-one zero h = refl
differ-one (suc zero) h = refl
differ-one (suc (suc x)) h = absurd (omega arith)

pub sibling_lem :
    (c : ℕ) → ((c % 2 ≡ 0) × (sibling c ≡ c + 1)) ⊎ ((c % 2 ≡ 1) × (sibling c + 1 ≡ c))
unfolding sibling
sibling_lem c =
    omega (arith, bit_xor_step c 1, bit_xor-zero (c / 2), differ-one (c % 2) (omega arith))

bit_xor-double : (x y : ℕ) → bit_xor (x * 2) (y * 2) ≡ bit_xor x y * 2
bit_xor-double x y =
    bit_xor_step (x * 2) (y * 2) ∙ rw (half x, half y, even x, even y) (omega arith)
  where
    half : (a : ℕ) → a * 2 / 2 ≡ a
    half a = omega arith

    even : (a : ℕ) → a * 2 % 2 ≡ 0
    even a = omega arith

-- Flipping bit `o` of a multiple of `2 ^ o` exchanges two neighbouring blocks.
pub bit_xor-block : (o c : ℕ) → bit_xor (c * 2 ^ o) (2 ^ o) ≡ sibling c * 2 ^ o
unfolding sibling
bit_xor-block zero c = rw (mul-one c, mul-one (bit_xor c 1))
bit_xor-block (suc o) c =
    rw (pow-suc 2 o, ← mul_assoc c (2 ^ o) 2, bit_xor-double (c * 2 ^ o) (2 ^ o), bit_xor-block o c)
      (mul_assoc (sibling c) (2 ^ o) 2)

zero-bit_and : (b : ℕ) → bit_and 0 b ≡ 0
zero-bit_and b = omega (arith, bit_and-bitwise 0 b)

-- The second number bounds the result; the fuel bounds the first.
bit_and-le_right : (fuel a b : ℕ) → a ≤ fuel → bit_and a b ≤ b
bit_and-le_right fuel zero b h = omega (arith, zero-bit_and b)
bit_and-le_right zero (suc a) b h = absurd (omega arith)
bit_and-le_right (suc fuel) (suc a) b h =
    let rest = bit_and-le_right fuel (suc a / 2) (b / 2) (omega arith) in
    omega (arith, bit_and_step (suc a) b, rest)

-- A mask of one bit selects that bit.
pub bit_and-pow : (k x : ℕ) → bit_and x (2 ^ k) ≡ (if test_bit x k then 2 ^ k else 0)
unfolding test_bit
bit_and-pow zero x =
    ground (arith, bit_and_step x 1, bit_and-le_right (x / 2) (x / 2) 0 (omega arith))
bit_and-pow (suc k) x =
    ground (arith, bit_and_step x (2 ^ suc k), halves (pow-suc 2 k), bit_and-pow k (x / 2))
  where
    halves : {p q : ℕ} → q ≡ p * 2 → (q / 2 ≡ p) × (q % 2 ≡ 0)
    halves e = omega arith

pub test_bit_of_and : (k x : ℕ) → not (bit_and x (2 ^ k) == 0) ≡ test_bit x k
test_bit_of_and k x = ground (arith, bit_and-pow k x, one-le-pow k 2 (omega arith))

bit_and-le_fuel : (n a b : ℕ) → a ≤ n → bit_and a b ≤ a
bit_and-le_fuel n zero b h = omega (arith, zero-bit_and b)
bit_and-le_fuel zero (suc a) b h = absurd (omega arith)
bit_and-le_fuel (suc n) (suc a) b h =
    omega (arith, bit_and_step (suc a) b, bit_and-le_fuel n (suc a / 2) (b / 2) (omega arith))

pub bit_and-le : (a b : ℕ) → bit_and a b ≤ a
bit_and-le a b = bit_and-le_fuel a a b (omega arith)
