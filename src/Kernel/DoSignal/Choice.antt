-- ===== src/Kernel/DoSignal/Choice.antt =====
-- `next_pending_signal` of kernel/signal.c: which signal is delivered first.
use mini_os.Prelude.{
  ℕ, zero, suc, ◌+◌, ◌-◌, ◌^◌, ◌≤◌, ◌<◌, ◌≡◌, ◌⊎◌, ◌∙◌, Bool, true, false, not, ◌&&◌, refl, sym, ap,
  arith, ◌==◌, if◌then◌else◌, Bool-cases, inl, inr, bit_and, test_bit, test_bit_of_and,
}
use mathlib.Core.Path.{subst}
use mini_os.Kernel.Signal.{sig_bit, sigkill, sigstop, sig_unblockable, clear_bits}
use mini_os.Kernel.Signal.Mask.{unblockable, test_bit-clear}
use mini_os.Kernel.SignalCalls.Masks.{test_bit-opened, opened_small}
use mini_os.Kernel.DoSignal.{scan, next_pending_signal}

-- Bit `i` is pending, and not blocked or not blockable.
abbrev pub deliverable : ℕ → ℕ → ℕ → Bool
deliverable pending blocked i =
    test_bit pending i && not (test_bit blocked i && not (unblockable i))

ready : ℕ → ℕ → ℕ
ready pending blocked = clear_bits pending (clear_bits blocked sig_unblockable)

ready-deliverable :
    (pending blocked i : ℕ)
    → blocked < 2 ^ 64
    → i < 64
    → test_bit (ready pending blocked) i ≡ deliverable pending blocked i
unfolding ready
ready-deliverable p b i h l =
    test_bit-clear p (clear_bits b sig_unblockable) i (opened_small b h) l
    ∙ ap (λ c. test_bit p i && not c) (test_bit-opened b i l)

-- What the scan from `sig` on finds in the bits of `f`.
abbrev Scanned : (ℕ → Bool) → (rounds sig found : ℕ) → Type 0
Scanned f rounds sig found =
    ((found ≡ 0) × ((i : ℕ) → sig ≤ suc i → suc i < sig + rounds → f i ≡ false))
    ⊎ ((sig ≤ found)
        × (found < sig + rounds)
        × (f (found - 1) ≡ true)
        × ((i : ℕ) → sig ≤ suc i → suc i < found → f i ≡ false))

scan-Scanned : (rounds r sig : ℕ) → 0 < sig → Scanned (test_bit r) rounds sig (scan rounds r sig)
unfolding scan
scan-Scanned zero r sig h = inl (refl, λ i l m. absurd (omega arith))
scan-Scanned (suc n) r sig h = elim (Bool-cases (test_bit r (sig - 1))) [
  | inl hit ↦
      rw (test_bit_of_and (sig - 1) r, hit)
        (inr (omega arith, omega arith, hit, λ i l m. absurd (omega arith)))
  | inr miss ↦
      rw (test_bit_of_and (sig - 1) r, miss) (later miss (scan-Scanned n r (suc sig) (omega arith)))
]
  where
    before : (i : ℕ) → (suc i == sig) ≡ true → sig - 1 ≡ i
    before i e = ground arith

    at :
        (i : ℕ)
        → test_bit r (sig - 1) ≡ false
        → sig ≤ suc i
        → ((suc sig ≤ suc i) → test_bit r i ≡ false)
        → test_bit r i ≡ false
    at i miss l next = elim (Bool-cases (suc i == sig)) [
      | inl e ↦ subst (λ x. test_bit r x ≡ false) (before i e) miss
      | inr e ↦ next (ground arith)
    ]

    later :
        {found : ℕ}
        → test_bit r (sig - 1) ≡ false
        → Scanned (test_bit r) n (suc sig) found
        → Scanned (test_bit r) (suc n) sig found
    later miss (inl (z, none)) = inl (z, λ i l m. at i miss l (λ u. none i u (omega arith)))
    later miss (inr (l, m, hit, none)) =
        inr (omega arith, omega arith, hit, λ i u v. at i miss u (λ w. none i w v))

-- What is to be chosen from the pending and the blocked signals: a deliverable SIGKILL, else a
-- deliverable SIGSTOP, else the least deliverable signal, and 0 if there is none.
pub data IsNext (pending blocked : ℕ) : ℕ → Type 0 where
  kill : deliverable pending blocked 8 ≡ true → IsNext pending blocked 9
  stop :
      deliverable pending blocked 8 ≡ false
      → deliverable pending blocked 18 ≡ true
      → IsNext pending blocked 19
  least :
      (sig : ℕ)
      → deliverable pending blocked 8 ≡ false
      → deliverable pending blocked 18 ≡ false
      → sig < 63
      → deliverable pending blocked sig ≡ true
      → ((i : ℕ) → i < sig → deliverable pending blocked i ≡ false)
      → IsNext pending blocked (suc sig)
  none_left : ((i : ℕ) → i < 63 → deliverable pending blocked i ≡ false) → IsNext pending blocked 0

module _ (p b : ℕ) (h : b < 2 ^ 64) where
  as_deliverable : (i : ℕ) {v : Bool} → i < 64 → test_bit (ready p b) i ≡ v → deliverable p b i ≡ v
  as_deliverable i l e = sym (ready-deliverable p b i h l) ∙ e

  least-IsNext :
      {found : ℕ}
      → deliverable p b 8 ≡ false
      → deliverable p b 18 ≡ false
      → Scanned (test_bit (ready p b)) 63 1 found
      → IsNext p b found
  least-IsNext nk ns (inl (z, none)) =
      subst (IsNext p b) (sym z)
        (none_left (λ i l. as_deliverable i (omega arith) (none i (omega arith) (omega arith))))
  least-IsNext {found = zero} nk ns (inr (l, m, hit, none)) = absurd (omega arith)
  least-IsNext {found = suc f} nk ns (inr (l, m, hit, none)) =
      least f nk ns (omega arith)
        (as_deliverable f (omega arith)
          (subst (λ x. test_bit (ready p b) x ≡ true) {x = suc f - 1} (omega arith) hit))
        (λ i u. as_deliverable i (omega arith) (none i (omega arith) (omega arith)))

  by_bits :
      (k s : Bool)
      → test_bit (ready p b) 8 ≡ k
      → test_bit (ready p b) 18 ≡ s
      → IsNext p b (if k then sigkill else if s then sigstop else scan 63 (ready p b) 1)
  by_bits true s ek es = kill (as_deliverable 8 (omega arith) ek)
  by_bits false true ek es =
      stop (as_deliverable 8 (omega arith) ek) (as_deliverable 18 (omega arith) es)
  by_bits false false ek es =
      least-IsNext (as_deliverable 8 (omega arith) ek) (as_deliverable 18 (omega arith) es)
        (scan-Scanned 63 (ready p b) 1 (omega arith))

-- With a 64-bit mask `next_pending_signal` chooses SIGKILL if it is deliverable, else SIGSTOP if it
-- is, else the least deliverable signal, and returns 0 only where no signal from 1 to 63 is
-- deliverable.
pub next_pending_signal-IsNext :
    (pending blocked : ℕ)
    → blocked < 2 ^ 64
    → IsNext pending blocked (next_pending_signal pending blocked)
unfolding next_pending_signal ready
next_pending_signal-IsNext p b h =
    by_bits p b h (not (bit_and (ready p b) (sig_bit sigkill) == 0))
      (not (bit_and (ready p b) (sig_bit sigstop) == 0)) (sym (test_bit_of_and 8 (ready p b)))
      (sym (test_bit_of_and 18 (ready p b)))
