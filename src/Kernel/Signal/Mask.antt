-- ===== src/Kernel/Signal/Mask.antt =====
-- The masks of kernel/signal.c bit by bit: what is unblockable, and what a new signal cancels.
use mini_os.Prelude.{
  ℕ, ◌-◌, ◌^◌, ◌≤◌, ◌<◌, ◌≡◌, ◌∙◌, Bool, true, false, not, ◌&&◌, ◌||◌, ap, arith, ◌==◌,
  if◌then◌else◌, bit_or, complement, test_bit, test_bit-and, test_bit-or, test_bit-complement,
  test_bit-pow,
}
use native.Mathlib.Nat.{pow-le-pow_right}
use mini_os.Kernel.Signal.{
  sig_bit, sigcont, sig_unblockable, sig_stop_mask, sig_kernel_stop, clear_bits, queue_bits,
}

-- `x & ~m` drops the bits of `m`.
pub test_bit-clear :
    (x m i : ℕ)
    → m < 2 ^ 64
    → i < 64
    → test_bit (clear_bits x m) i ≡ (test_bit x i && not (test_bit m i))
unfolding clear_bits
test_bit-clear x m i h l =
    test_bit-and x (complement 64 m) i
    ∙ ap (λ b. test_bit x i && b) (test_bit-complement 64 m i h l)

-- Signal 9 or signal 19, by its bit.
abbrev pub unblockable : ℕ → Bool
unblockable i = i == 8 || i == 18

pub test_bit-unblockable : (i : ℕ) → test_bit sig_unblockable i ≡ unblockable i
test_bit-unblockable i =
    test_bit-or (2 ^ 8) (2 ^ 18) i ∙ ground (arith, test_bit-pow 8 i, test_bit-pow 18 i)

abbrev pub stops_at : ℕ → Bool
stops_at i = i == 18 || i == 19 || i == 20 || i == 21

test_bit-stop_mask : (i : ℕ) → test_bit sig_stop_mask i ≡ stops_at i
test_bit-stop_mask i = ground (
  arith,
  test_bit-or (bit_or (bit_or (2 ^ 18) (2 ^ 19)) (2 ^ 20)) (2 ^ 21) i,
  test_bit-or (bit_or (2 ^ 18) (2 ^ 19)) (2 ^ 20) i,
  test_bit-or (2 ^ 18) (2 ^ 19) i,
  test_bit-pow 18 i,
  test_bit-pow 19 i,
  test_bit-pow 20 i,
  test_bit-pow 21 i,
)

pub sig_bit-lt : (sig : ℕ) → sig < 64 → sig_bit sig < 2 ^ 64
sig_bit-lt sig h =
    let small : sig - 1 ≤ 63 = omega arith in
    omega (arith, pow-le-pow_right {n = 2} (omega arith) small)

-- What bit `i` of the pending set is after signal `sig` is queued.
abbrev pub queued_bit : ℕ → ℕ → Bool → Bool
queued_bit sig i old =
    if i == sig - 1
    then true
    else if sig == sigcont && stops_at i
    then false
    else if sig_kernel_stop sig && i == 17
    then false
    else old

-- Queueing a signal from 1 to 63 sets its bit; SIGCONT drops the four stop signals, and each of
-- these drops SIGCONT; every other of the 64 bits stays.
pub queue_bits-queued_bit :
    (pending sig i : ℕ)
    → 0 < sig
    → sig < 64
    → i < 64
    → test_bit (queue_bits pending sig) i ≡ queued_bit sig i (test_bit pending i)
unfolding queue_bits
queue_bits-queued_bit p sig i l h m = ground (
  arith,
  test_bit-or p (sig_bit sig) i,
  test_bit-pow (sig - 1) i,
  test_bit-clear (bit_or p (sig_bit sig)) sig_stop_mask i (omega arith) m,
  test_bit-clear (bit_or p (sig_bit sig)) (2 ^ 17) i (omega arith) m,
  test_bit-stop_mask i,
  test_bit-pow 17 i,
)
