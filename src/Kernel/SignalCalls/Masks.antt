-- ===== src/Kernel/SignalCalls/Masks.antt =====
-- rt_sigprocmask, rt_sigsuspend and rt_sigaction of kernel/signal.c: what becomes of the masks.
use mini_os.Prelude.{
  ℕ, zero, suc, ◌^◌, ◌<◌, ◌≡◌, ◌≢◌, ◌⊎◌, ◌∙◌, Bool, true, false, not, ◌&&◌, ◌||◌, Option, none,
  some, refl, ap, arith, ◌==◌, Bool-cases, inl, inr, bit_or, complement, test_bit, test_bit-and,
  test_bit-or, bit_and-le,
}
use mini_os.Prelude.Int.{ℤ, pos, negsuc}
use mini_os.Kernel.Task.{Ret, ok, SigAction, Kernel, current, set_task}
use mini_os.Kernel.Signal.{sigkill, sigstop, sig_unblockable, clear_bits}
use mini_os.Kernel.Signal.Mask.{unblockable, test_bit-clear, test_bit-unblockable}
use mini_os.Kernel.SignalCalls.{
  UserIn, null_in, bad_in, given, UserOut, null_out, bad_out, good_out, sigset_size, new_mask,
  set_blocked, apply_mask, put_old, set_action, ksys_rt_sigprocmask, ksys_rt_sigaction,
  sigsuspend_enter,
}

-- SIGKILL and SIGSTOP are not in the mask.
abbrev pub IsOpen : ℕ → Type 0
IsOpen mask = (test_bit mask 8 ≡ false) × (test_bit mask 18 ≡ false)

pub test_bit-opened :
    (x i : ℕ)
    → i < 64
    → test_bit (clear_bits x sig_unblockable) i ≡ (test_bit x i && not (unblockable i))
test_bit-opened x i l =
    test_bit-clear x sig_unblockable i (omega arith) l
    ∙ ap (λ b. test_bit x i && not b) (test_bit-unblockable i)

pub opened-IsOpen : (x : ℕ) → IsOpen (clear_bits x sig_unblockable)
opened-IsOpen x = (
  ground (arith, test_bit-opened x 8 (omega arith)),
  ground (arith, test_bit-opened x 18 (omega arith)),
)

new_mask-IsOpen :
    (how old set m : ℕ) → IsOpen old → IsOpen set → new_mask how old set ≡ some m → IsOpen m
unfolding new_mask clear_bits
new_mask-IsOpen how old set m o s e = ground (
  arith,
  test_bit-or old set 8,
  test_bit-or old set 18,
  test_bit-and old (complement 64 set) 8,
  test_bit-and old (complement 64 set) 18,
)

-- What bit `i` of the mask becomes, by the request and its bit.
abbrev pub mask_bit : ℕ → Bool → Bool → Bool
mask_bit zero old set = old || set
mask_bit (suc zero) old set = old && not set
mask_bit (suc (suc _)) old set = set

new_mask-mask_bit :
    (how old set i : ℕ)
    → how < 3
    → set < 2 ^ 64
    → i < 64
    → (m : ℕ) × (new_mask how old set ≡ some m)
      × (test_bit m i ≡ mask_bit how (test_bit old i) (test_bit set i))
unfolding new_mask
new_mask-mask_bit zero old set i h w l = (bit_or old set, refl, test_bit-or old set i)
new_mask-mask_bit (suc zero) old set i h w l =
    (clear_bits old set, refl, test_bit-clear old set i w l)
new_mask-mask_bit (suc (suc zero)) old set i h w l = (set, refl, refl)
new_mask-mask_bit (suc (suc (suc n))) old set i h w l = absurd (omega arith)

-- The current task of `k` has an open mask in a result.
abbrev OpenIn : Kernel → Ret × Kernel → Type 0
OpenIn k out = IsOpen (out.1.task (current k)).blocked

module _ (k : Kernel) (how : ℕ) (oldset : UserOut) where
  put_old-OpenIn :
      (o : UserOut) (out : Ret × Kernel) (k' : Kernel)
      → OpenIn k out
      → IsOpen (k'.task (current k)).blocked
      → OpenIn k (put_old o out k')
  unfolding put_old
  put_old-OpenIn null_out out k' a b = a
  put_old-OpenIn bad_out out k' a b = b
  put_old-OpenIn good_out out k' a b = a

  set_blocked-OpenIn :
      (m : Option ℕ)
      → IsOpen (k.task (current k)).blocked
      → ((x : ℕ) → m ≡ some x → IsOpen x)
      → OpenIn k (set_blocked k m oldset)
  unfolding set_blocked
  set_blocked-OpenIn none o h = o
  set_blocked-OpenIn (some m) o h =
      let k' = set_task k (current k) (record (k.task (current k)) { blocked = m }) in
      let open_m = h m refl in put_old-OpenIn oldset (ok 0, k') k' (ground arith) (ground arith)

  apply_mask-OpenIn :
      (set : UserIn ℕ)
      → IsOpen (k.task (current k)).blocked
      → OpenIn k (apply_mask k how set oldset)
  unfolding apply_mask
  apply_mask-OpenIn null_in o = put_old-OpenIn oldset (ok 0, k) k o o
  apply_mask-OpenIn bad_in o = o
  apply_mask-OpenIn (given set) o =
      set_blocked-OpenIn
        (new_mask how (k.task (current k)).blocked (clear_bits set sig_unblockable)) o
        (λ x.
          new_mask-IsOpen how (k.task (current k)).blocked (clear_bits set sig_unblockable) x o
            (opened-IsOpen set))

-- Whatever a task whose mask is without SIGKILL and SIGSTOP asks of `rt_sigprocmask`, and whether
-- it succeeds or fails, these two stay out of its mask.
pub ksys_rt_sigprocmask-IsOpen :
    (k : Kernel) (how : ℕ) (set : UserIn ℕ) (oldset : UserOut) (size : ℕ)
    → IsOpen (k.task (current k)).blocked
    → IsOpen ((ksys_rt_sigprocmask k how set oldset size).1.task (current k)).blocked
unfolding ksys_rt_sigprocmask
ksys_rt_sigprocmask-IsOpen k how set oldset size o =
    elim (Bool-cases (not (k.task (current k)).is_user || not (size == sigset_size))) [
      | inl bad ↦ rw bad o
      | inr good ↦ rw good (apply_mask-OpenIn k how oldset set o)
    ]

put_old_good : (o : UserOut) (out : Ret × Kernel) (k : Kernel) → o ≢ bad_out → put_old o out k ≡ out
unfolding put_old
put_old_good null_out out k n = refl
put_old_good bad_out out k n = absurd (n refl)
put_old_good good_out out k n = refl

pub opened_small : (set : ℕ) → set < 2 ^ 64 → clear_bits set sig_unblockable < 2 ^ 64
unfolding clear_bits
opened_small set w = omega (arith, bit_and-le set (complement 64 sig_unblockable))

-- A request of a user task with a known `how`, a set that is read and no failing copy of the old
-- mask succeeds, and changes the mask bit by bit as it says: 0 adds the set, 1 takes it away, 2
-- puts it in place, in each case without SIGKILL and SIGSTOP.
pub ksys_rt_sigprocmask-mask_bit :
    (k : Kernel) (how set : ℕ) (oldset : UserOut) (i : ℕ)
    → (k.task (current k)).is_user ≡ true
    → how < 3
    → set < 2 ^ 64
    → i < 64
    → oldset ≢ bad_out
    → let out = ksys_rt_sigprocmask k how (given set) oldset sigset_size in
      (out.0 ≡ ok 0)
      × (test_bit (out.1.task (current k)).blocked i
          ≡ mask_bit how
              (test_bit (k.task (current k)).blocked i)
              (test_bit set i && not (unblockable i)))
unfolding ksys_rt_sigprocmask apply_mask set_blocked
ksys_rt_sigprocmask-mask_bit k how set oldset i user h w l n =
    let opened = clear_bits set sig_unblockable in
    let (m, e, b) =
      new_mask-mask_bit how (k.task (current k)).blocked opened i h (opened_small set w) l in
    let k' = set_task k (current k) (record (k.task (current k)) { blocked = m }) in
    rw (user, e, put_old_good oldset (ok 0, k') k' n, self (current k))
      (
        refl,
        b ∙ ap (mask_bit how (test_bit (k.task (current k)).blocked i)) (test_bit-opened set i l),
      )
  where
    self : (t : ℕ) → (t == t) ≡ true
    self t = ground arith

-- Where `rt_sigsuspend` of a user task starts to wait, the mask that it was given holds, less
-- SIGKILL and SIGSTOP, and the old mask is kept to be put back.
pub sigsuspend_enter-mask :
    (k : Kernel) (mask i : ℕ)
    → (k.task (current k)).is_user ≡ true
    → i < 64
    → let out = sigsuspend_enter k (given mask) sigset_size in
      let r = out.1.task (current k) in
      (out.0 ≡ ok 0)
      × (test_bit r.blocked i ≡ (test_bit mask i && not (unblockable i)))
      × (r.saved_blocked ≡ (k.task (current k)).blocked)
      × (r.restore_sigmask ≡ true)
unfolding sigsuspend_enter
sigsuspend_enter-mask k mask i user l = rw user (ground (arith, test_bit-opened mask i l))

-- No request changes the action of SIGKILL or SIGSTOP of any task, or any action of a task other
-- than the caller.
pub ksys_rt_sigaction-fixed :
    (k : Kernel) (sig : ℤ) (act : UserIn SigAction) (oldact : UserOut) (size t s : ℕ)
    → ((s ≡ sigkill) ⊎ (s ≡ sigstop)) ⊎ (t ≢ current k)
    → let k' = (ksys_rt_sigaction k sig act oldact size).1 in
      (k'.task t).actions s ≡ (k.task t).actions s
unfolding ksys_rt_sigaction set_action put_old
ksys_rt_sigaction-fixed k (negsuc n) act oldact size t s h = refl
ksys_rt_sigaction-fixed k (pos sig) null_in oldact size t s h = ground arith
ksys_rt_sigaction-fixed k (pos sig) act oldact size t s h = ground arith
