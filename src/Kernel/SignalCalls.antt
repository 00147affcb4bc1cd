-- ===== src/Kernel/SignalCalls.antt =====
-- The system calls of kernel/signal.c: kill, rt_sigaction, rt_sigprocmask, rt_sigpending and
-- rt_sigsuspend. The copies from and to user memory (mm/uaccess.c) are arguments.
pub mod Masks
pub mod Kill
mod Tests
use mini_os.Prelude.{
  ℕ, zero, suc, ◌+◌, ◌-◌, Bool, true, false, not, ◌&&◌, ◌||◌, Option, none, some, List, [], ◌∷◌,
  ltb, leb, ◌==◌, if◌then◌else◌, update, bit_and, bit_or,
}
use mini_os.Prelude.Int.{ℤ, pos, negsuc}
use mini_os.Kernel.Task.{
  Ret, ok, err, esrch, eintr, efault, einval, task_sleeping, SigAction, Task, Kernel, current,
  set_task, linked, is_zombie, is_dead,
}
use mini_os.Kernel.Sched.{sched_block, schedule, enqueue_task}
use mini_os.Kernel.Signal.{
  nsig, sigkill, sigstop, sig_unblockable, clear_bits, signal_valid, signal_pending, signal_send,
  find_task_by_pid,
}

-- A pointer that the kernel reads through: NULL, one whose copy fails, or what lies there.
pub data UserIn (A : Type 0) : Type 0 where
  null_in : UserIn A
  bad_in : UserIn A
  given : A → UserIn A

-- A pointer that the kernel writes through.
pub data UserOut : Type 0 where
  null_out bad_out good_out : UserOut

abbrev pub sigset_size : ℕ
sigset_size = 8

signal_found : Kernel → Option ℕ → ℕ → Ret × Kernel
signal_found k none sig = (err esrch, k)
signal_found k (some t) sig = (ok 0, if sig == 0 then k else signal_send k t sig)

unfoldable pub signal_one_process : Kernel → ℤ → ℕ → Ret × Kernel
unfolding signal_found
signal_one_process k pid sig = signal_found k (find_task_by_pid k pid) sig

-- The walks over all tasks: `chosen` is the loop's test, read when the walk reaches the task.
unfoldable pub signal_each : (Kernel → ℕ → Bool) → Kernel → ℕ → List ℕ → Bool × Kernel
signal_each chosen k sig [] = (false, k)
signal_each chosen k sig (t ∷ ts) =
    let hit = chosen k t in
    let (found, k') =
      signal_each chosen (if hit && not (sig == 0) then signal_send k t sig else k) sig ts in
    (hit || found, k')

abbrev pub in_group : ℕ → Kernel → ℕ → Bool
in_group pgid k t =
    let r = k.task t in
    r.is_user && not (is_zombie r.state) && not (is_dead r.state) && r.pgid == pgid

abbrev pub not_caller : ℕ → Kernel → ℕ → Bool
not_caller me k t = let r = k.task t in r.is_user && not (t == me) && not (is_dead r.state)

abbrev pub found_or_esrch : Bool × Kernel → Ret × Kernel
found_or_esrch (found, k) = (if found then ok 0 else err esrch, k)

unfoldable pub signal_process_group : Kernel → ℕ → ℕ → Ret × Kernel
unfolding signal_each
signal_process_group k pgid sig =
    if pgid == 0
    then (err esrch, k)
    else found_or_esrch (signal_each (in_group pgid) k sig k.all_tasks)

-- By the pid, once the signal is known to be valid; `negsuc 0` is -1.
kill_valid : Kernel → ℤ → ℕ → Ret × Kernel
kill_valid k (pos zero) sig = signal_process_group k (k.task (current k)).pgid sig
kill_valid k (pos (suc n)) sig = signal_one_process k (pos (suc n)) sig
kill_valid k (negsuc zero) sig =
    found_or_esrch (signal_each (not_caller (current k)) k sig k.all_tasks)
kill_valid k (negsuc (suc n)) sig = signal_process_group k (suc (suc n)) sig

unfoldable pub ksys_kill : Kernel → ℤ → ℤ → Ret × Kernel
unfolding kill_valid
ksys_kill k pid (negsuc _) = (err einval, k)
ksys_kill k pid (pos sig) =
    if not (signal_valid (pos sig)) then (err einval, k) else kill_valid k pid sig

-- The second half of `ksys_rt_sigaction`: the old action is out.
set_action : Kernel → ℕ → UserIn SigAction → Ret × Kernel
set_action k sig null_in = (ok 0, k)
set_action k sig bad_in = (err efault, k)
set_action k sig (given act) =
    let r = k.task (current k) in
    let new : SigAction = record act { sa_mask = clear_bits act.sa_mask sig_unblockable } in
    (ok 0, set_task k (current k) (record r { actions = update r.actions sig new }))

-- The old action goes to `oldact`, if that is not NULL.
put_old : UserOut → Ret × Kernel → Kernel → Ret × Kernel
put_old bad_out next k = (err efault, k)
put_old null_out next k = next
put_old good_out next k = next

unfoldable pub ksys_rt_sigaction : Kernel → ℤ → UserIn SigAction → UserOut → ℕ → Ret × Kernel
unfolding put_old set_action
ksys_rt_sigaction k (negsuc _) act oldact size = (err einval, k)
ksys_rt_sigaction k (pos sig) act oldact size =
    if not (k.task (current k)).is_user || not (size == sigset_size)
    then (err einval, k)
    else if sig == 0 || leb nsig sig
    then (err einval, k)
    else if sig == sigkill || sig == sigstop
    then (err einval, k)
    else put_old oldact (set_action k sig act) k

-- SIG_BLOCK is 0, SIG_UNBLOCK is 1, SIG_SETMASK is 2.
unfoldable pub new_mask : ℕ → ℕ → ℕ → Option ℕ
new_mask how old set =
    if how == 0
    then some (bit_or old set)
    else if how == 1
    then some (clear_bits old set)
    else if how == 2
    then some set
    else none

set_blocked : Kernel → Option ℕ → UserOut → Ret × Kernel
set_blocked k none oldset = (err einval, k)
set_blocked k (some mask) oldset =
    let k' = set_task k (current k) (record (k.task (current k)) { blocked = mask }) in
    put_old oldset (ok 0, k') k'

apply_mask : Kernel → ℕ → UserIn ℕ → UserOut → Ret × Kernel
unfolding put_old set_blocked
apply_mask k how null_in oldset = put_old oldset (ok 0, k) k
apply_mask k how bad_in oldset = (err efault, k)
apply_mask k how (given set) oldset =
    let new = new_mask how (k.task (current k)).blocked (clear_bits set sig_unblockable) in
    set_blocked k new oldset

-- What `oldset` receives, where the call succeeds, is the mask before it.
unfoldable pub ksys_rt_sigprocmask : Kernel → ℕ → UserIn ℕ → UserOut → ℕ → Ret × Kernel
unfolding apply_mask
ksys_rt_sigprocmask k how set oldset size =
    if not (k.task (current k)).is_user || not (size == sigset_size)
    then (err einval, k)
    else apply_mask k how set oldset

-- The result, and what is written to `*set`.
unfoldable pub ksys_rt_sigpending : Kernel → UserOut → ℕ → Ret × Option ℕ
ksys_rt_sigpending k set size =
    let r = k.task (current k) in
    if not r.is_user || not (size == sigset_size)
    then (err einval, none)
    else elim set [ good_out ↦ (ok 0, some (bit_and r.pending r.blocked)) | _ ↦ (err efault, none) ]

-- `ksys_rt_sigsuspend` before its loop.
unfoldable pub sigsuspend_enter : Kernel → UserIn ℕ → ℕ → Ret × Kernel
sigsuspend_enter k set size =
    let r = k.task (current k) in
    if not r.is_user || not (size == sigset_size) then (err einval, k) else elim set [
      | given mask ↦ (
        ok 0,
        set_task k (current k) (record r {
          saved_blocked = r.blocked;
          restore_sigmask = true;
          blocked = clear_bits mask sig_unblockable;
        }),
      )
      | _ ↦ (err efault, k)
    ]

-- The loop of task `me`: each element of `others` is what the other tasks do from the moment that it
-- sleeps until it runs again. `none` means that it still sleeps at the end of the list.
unfoldable pub sigsuspend_wait : ℕ → Kernel → List (Kernel → Kernel) → Option (Ret × Kernel)
sigsuspend_wait me k [] = if signal_pending (k.task me) then some (err eintr, k) else none
sigsuspend_wait me k (run ∷ runs) =
    let back = run (schedule (sched_block k task_sleeping)) in
    let rest =
      sigsuspend_wait me (if not (linked back me) then enqueue_task back me else back) runs in
    if signal_pending (k.task me) then some (err eintr, k) else rest
