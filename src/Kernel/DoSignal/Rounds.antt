-- ===== src/Kernel/DoSignal/Rounds.antt =====
-- The rounds of `do_signal` of kernel/signal.c, and what may be decided about a pending signal.
use mini_os.Prelude.{
  Bool, ℕ, zero, suc, ◌-◌, ◌^◌, ◌%◌, ◌<◌, ◌≡◌, ◌≢◌, ◌⊎◌, ◌∙◌, true, false, not, ◌&&◌, ◌||◌, Option,
  none, some, refl, sym, ap, arith, ◌==◌, if◌then◌else◌, Bool-cases, inl, inr, test_bit,
  test_bit-pow,
}
use mathlib.Core.Path.{subst}
use mini_os.Kernel.Task.{Task}
use mini_os.Kernel.Signal.{sig_bit, sigkill, sigstop, sigchld, sigcont, sig_kernel_stop, clear_bits}
use mini_os.Kernel.Signal.Mask.{test_bit-clear, sig_bit-lt}
use mini_os.Kernel.DoSignal.{
  Delivery, nothing, exits, stops, shuts_down, handles, default_action, disposition, deliver,
  do_signal, next_pending_signal, reset_hand,
}
use mini_os.Kernel.DoSignal.Choice.{
  deliverable, IsNext, kill, stop, least, none_left, next_pending_signal-IsNext,
}
use mini_os.Kernel.DoSignal.Count.{count, count-le, count-drop}

-- Signal `sig` is pending and may be delivered to the task.
abbrev pub Due : Task → ℕ → Type 0
Due r sig = (0 < sig) × (sig < 64) × (deliverable r.pending r.blocked (sig - 1) ≡ true)

-- The signals that the default of no handler ignores: SIGCHLD, SIGCONT, SIGURG and SIGWINCH.
abbrev pub ignores : ℕ → Bool
ignores sig = sig == 17 || sig == 18 || sig == 23 || sig == 28

-- The signals whose default stops a task: SIGTSTP, SIGTTIN and SIGTTOU.
abbrev pub stops_by_default : ℕ → Bool
stops_by_default sig = sig == 20 || sig == 21 || sig == 22

-- The signals on which the first task shuts the system down: SIGUSR1, SIGUSR2 and SIGTERM.
abbrev pub shuts : ℕ → Bool
shuts sig = sig == 10 || sig == 12 || sig == 15

-- The task ignores the signal: by its action, or by the default of four signals.
abbrev pub IsIgnored : Task → ℕ → Type 0
IsIgnored r sig =
    (sig ≢ 9)
    × (sig ≢ 19)
    × (((r.actions sig).sa_handler ≡ 1) ⊎ (((r.actions sig).sa_handler ≡ 0) × (ignores sig ≡ true)))

-- The signal ends the task by default: it is none of the above, or SIGTERM and its like are sent to
-- another task than the first one.
abbrev pub EndsByDefault : Task → ℕ → Type 0
EndsByDefault r sig =
    (sig ≢ 19)
    × ((r.actions sig).sa_handler ≡ 0)
    × (stops_by_default sig ≡ false)
    × (ignores sig ≡ false)
    × ((r.pid ≢ 1) ⊎ (shuts sig ≡ false))

-- What may be done about the pending signals of a task.
pub data IsDelivery (r : Task) : Delivery → Type 0 where
  idle : ((sig : ℕ) → Due r sig → IsIgnored r sig) → IsDelivery r nothing
  exit :
      (sig code : ℕ)
      → Due r sig
      → code ≡ sig % 128
      → (sig ≡ 9) ⊎ EndsByDefault r sig
      → IsDelivery r (exits code)
  halt :
      (sig : ℕ)
      → Due r sig
      → (sig ≡ 19) ⊎ ((stops_by_default sig ≡ true) × ((r.actions sig).sa_handler ≡ 0))
      → IsDelivery r (stops sig)
  shut :
      (sig : ℕ)
      → Due r sig
      → r.pid ≡ 1
      → shuts sig ≡ true
      → (r.actions sig).sa_handler ≡ 0
      → IsDelivery r (shuts_down sig)
  handled :
      (sig : ℕ)
      → Due r sig
      → sig ≢ 9
      → sig ≢ 19
      → (r.actions sig).sa_handler ≢ 0
      → (r.actions sig).sa_handler ≢ 1
      → IsDelivery r (handles sig (r.actions sig))

-- What the disposition of a due signal comes to.
data Disposed (r : Task) (sig : ℕ) : Option Delivery → Type 0 where
  ignored : IsIgnored r sig → Disposed r sig none
  acted : (d : Delivery) → (Due r sig → IsDelivery r d) → Disposed r sig (some d)

default_action-Disposed :
    (r : Task) (sig : ℕ)
    → sig ≢ sigkill
    → sig ≢ sigstop
    → (r.actions sig).sa_handler ≡ 0
    → Disposed r sig (default_action r.pid sig)
unfolding default_action
default_action-Disposed r sig nk ns z = elim (Bool-cases (sig_kernel_stop sig)) [
  | inl s ↦ rw s (acted (stops sig) (λ d. halt sig d (inr (ground arith, z))))
  | inr s ↦ elim (Bool-cases (r.pid == 1 && (sig == 10 || sig == 12 || sig == 15))) [
    | inl i ↦ rw (s, i) (acted (shuts_down sig) (λ d. shut sig d (ground arith) (ground arith) z))
    | inr i ↦ elim (Bool-cases (sig == sigchld || sig == sigcont || sig == 23 || sig == 28)) [
      | inl g ↦ rw (s, i, g) (ignored (nk, ns, inr (z, g)))
      | inr g ↦
          rw (s, i, g)
            (acted (exits (sig % 128))
              (λ d. exit sig (sig % 128) d refl (inr (ns, z, ground arith, g, spared i))))
    ]
  ]
]
  where
    spared :
        (r.pid == 1 && (sig == 10 || sig == 12 || sig == 15)) ≡ false
        → (r.pid ≢ 1) ⊎ (shuts sig ≡ false)
    spared i = elim (Bool-cases (r.pid == 1)) [
      | inl first ↦ inr (ground arith)
      | inr other ↦ inl (ground arith)
    ]

disposition-Disposed :
    (r : Task) (sig p : ℕ) → Disposed r sig (disposition (record r { pending = p }) sig)
unfolding disposition
disposition-Disposed r sig p = elim (Bool-cases (sig == sigkill)) [
  | inl k ↦
      rw k (acted (exits sigkill) (λ d. exit sig sigkill d (ground arith) (inl (ground arith))))
  | inr k ↦ elim (Bool-cases (sig == sigstop)) [
    | inl s ↦
        rw (k, s)
          (subst (λ x. Disposed r sig (some (stops x))) (as_number s)
            (acted (stops sig) (λ d. halt sig d (inl (as_number s)))))
    | inr s ↦ elim (Bool-cases ((r.actions sig).sa_handler == 1)) [
      | inl i ↦ rw (k, s, i) (ignored (ground arith, ground arith, inl (ground arith)))
      | inr i ↦ elim (Bool-cases ((r.actions sig).sa_handler == 0)) [
        | inl z ↦
            rw (k, s, i, z)
              (default_action-Disposed r sig (ground arith) (ground arith) (ground arith))
        | inr z ↦
            rw (k, s, i, z)
              (acted (handles sig (r.actions sig))
                (λ d. handled sig d (ground arith) (ground arith) (ground arith) (ground arith)))
      ]
    ]
  ]
]
  where
    as_number : (sig == sigstop) ≡ true → sig ≡ sigstop
    as_number s = ground arith

Due-of_next : (r : Task) {sig : ℕ} → IsNext r.pending r.blocked sig → (sig == 0) ≡ false → Due r sig
Due-of_next r (kill d) n = (omega arith, omega arith, d)
Due-of_next r (stop a d) n = (omega arith, omega arith, d)
Due-of_next r (least s nk ns l d h) n = (
  omega arith,
  omega arith,
  subst (λ i. deliverable r.pending r.blocked i ≡ true) {x = s} (omega arith) d,
)
Due-of_next r (none_left h) n = absurd (ground arith)

-- Nothing is due where the scan finds nothing.
none-Due :
    (r : Task) {sig : ℕ}
    → IsNext r.pending r.blocked sig
    → (sig == 0) ≡ true
    → (s : ℕ) → Due r s
    → IsIgnored r s
none-Due r (kill d) z s u = absurd (ground arith)
none-Due r (stop a d) z s u = absurd (ground arith)
none-Due r (least f nk ns l d h) z s u = absurd (ground arith)
none-Due r (none_left h) z s (a, b, c) = absurd (ground (arith, h (s - 1) (omega arith)))

-- The pending bits of a round are below those of the round before it.
abbrev taken : Task → ℕ → Task
taken r sig = record r { pending = clear_bits r.pending (sig_bit sig) }

taken_bit :
    (r : Task) (sig i : ℕ)
    → 0 < sig
    → sig < 64
    → i < 64
    → test_bit (taken r sig).pending i ≡ (test_bit r.pending i && not (sig - 1 == i))
taken_bit r sig i h l m =
    test_bit-clear r.pending (sig_bit sig) i (sig_bit-lt sig l) m
    ∙ ap (λ b. test_bit r.pending i && not b) (test_bit-pow (sig - 1) i)

module _ (r : Task) (sig : ℕ) (u : Due r sig) where
  bit_at :
      (i : ℕ)
      → i < 64
      → test_bit (taken r sig).pending i ≡ (test_bit r.pending i && not (sig - 1 == i))
  bit_at i l = taken_bit r sig i u.0 u.1 l

  Due-back : (s : ℕ) → Due (taken r sig) s → Due r s
  Due-back s (a, b, c) = (a, b, ground (arith, bit_at (s - 1) (omega arith)))

  Due-on : (s : ℕ) → (s == sig) ≡ false → Due r s → Due (taken r sig) s
  Due-on s n (a, b, c) = (a, b, ground (arith, bit_at (s - 1) (omega arith)))

  fewer : suc (count 63 (test_bit (taken r sig).pending)) ≡ count 63 (test_bit r.pending)
  fewer =
      count-drop 63 (sig - 1) (test_bit r.pending) (test_bit (taken r sig).pending)
        (omega (arith, u.0, u.1)) (ground (arith, u.2))
        (ground (arith, bit_at (sig - 1) (omega (arith, u.1))))
        (λ i l n. ground (arith, bit_at i (omega arith)))

  -- Where the signal taken is ignored, what the next rounds do is right for the task before it too.
  weaken : {d : Delivery} → IsIgnored r sig → IsDelivery (taken r sig) d → IsDelivery r d
  weaken g (idle h) = idle (λ s v. elim (Bool-cases (s == sig)) [
    | inl e ↦ subst (IsIgnored r) {x = sig} (ground arith) g
    | inr e ↦ h s (Due-on s e v)
  ])
  weaken g (exit s c d e f) = exit s c (Due-back s d) e f
  weaken g (halt s d e) = halt s (Due-back s d) e
  weaken g (shut s d e f i) = shut s (Due-back s d) e f i
  weaken g (handled s d a b e f) = handled s (Due-back s d) a b e f

next_of : (r : Task) → ℕ
next_of r = next_pending_signal r.pending r.blocked

deliver-IsDelivery :
    (rounds : ℕ) (r : Task)
    → r.blocked < 2 ^ 64
    → count 63 (test_bit r.pending) < rounds
    → IsDelivery r (deliver rounds r).0
unfolding deliver next_of
deliver-IsDelivery zero r h l = absurd (omega arith)
deliver-IsDelivery (suc n) r h l =
    let is_next : IsNext r.pending r.blocked (next_of r) =
      next_pending_signal-IsNext r.pending r.blocked h in
    elim (Bool-cases (next_of r == 0)) [
      | inl z ↦ rw z (idle (none-Due r is_next z))
      | inr s ↦
          let u = Due-of_next r is_next s in
          rw s (
            by_disposition u (disposition-Disposed r (next_of r) (taken r (next_of r)).pending)
              (λ g.
                deliver-IsDelivery n (taken r (next_of r)) h
                  (omega (arith, fewer r (next_of r) u))))
    ]
  where
    by_disposition :
        {o : Option Delivery}
        → Due r (next_of r)
        → Disposed r (next_of r) o
        → (IsIgnored r (next_of r)
            → IsDelivery (taken r (next_of r)) (deliver n (taken r (next_of r))).0)
        → IsDelivery r
            (elim o as (λ _. Delivery × Task) [
              | none ↦ deliver n (taken r (next_of r))
              | some d ↦ (d, reset_hand (taken r (next_of r)) d)
            ]).0
    by_disposition u (ignored g) rest = weaken r (next_of r) u g (rest g)
    by_disposition u (acted d f) rest = f u

-- For a user task with a 64-bit mask do_signal comes to a decision within its rounds. It does
-- nothing only if the task ignores every signal that is due, by SIG_IGN or by the default of
-- SIGCHLD, SIGCONT, SIGURG and SIGWINCH. It acts only on a signal that is due: it stops the task
-- for SIGSTOP, or by default for SIGTSTP, SIGTTIN and SIGTTOU; it shuts down where the task is the
-- first one and SIGUSR1, SIGUSR2 or SIGTERM has its default; it exits with the signal's number for
-- SIGKILL or another signal with the default action; and it runs a handler where there is one,
-- never for SIGKILL or SIGSTOP.
pub do_signal-IsDelivery :
    (r : Task) → r.is_user ≡ true → r.blocked < 2 ^ 64 → IsDelivery r (do_signal r).0
unfolding do_signal
do_signal-IsDelivery r user h =
    subst (λ b. IsDelivery r (if not b then (nothing, r) else deliver 64 r).0) (sym user)
      (deliver-IsDelivery 64 r h (omega (arith, count-le 63 (test_bit r.pending))))

-- A round of `deliver` with the signal that it takes.
round : ℕ → Task → ℕ → Delivery × Task
round n r sig =
    let rest = deliver n (taken r sig) in
    if sig == 0 then (nothing, r) else elim (disposition (taken r sig) sig) [
      | none ↦ rest
      | some d ↦ (d, reset_hand (taken r sig) d)
    ]

kill_round :
    (n : ℕ) (r : Task)
    → next_pending_signal r.pending r.blocked ≡ 9
    → (deliver (suc n) r).0 ≡ exits 9
unfolding deliver round disposition
kill_round n r first = subst (λ sig. (round n r sig).0 ≡ exits 9) (sym first) refl

-- A pending SIGKILL ends a user task with code 9, whatever its actions and its 64-bit mask are.
pub do_signal-kill :
    (r : Task)
    → r.is_user ≡ true
    → r.blocked < 2 ^ 64
    → test_bit r.pending 8 ≡ true
    → (do_signal r).0 ≡ exits 9
unfolding do_signal
do_signal-kill r user h p =
    let first : next_pending_signal r.pending r.blocked ≡ 9 =
      kill_first (next_pending_signal-IsNext r.pending r.blocked h) in
    subst (λ b. (if not b then (nothing, r) else deliver 64 r).0 ≡ exits 9) (sym user)
      (kill_round 63 r first)
  where
    kill_first : {sig : ℕ} → IsNext r.pending r.blocked sig → sig ≡ 9
    kill_first (kill d) = refl
    kill_first (stop a d) = absurd (ground arith)
    kill_first (least s nk ns l d _) = absurd (ground arith)
    kill_first (none_left left) = absurd (ground (arith, left 8 (omega arith)))
