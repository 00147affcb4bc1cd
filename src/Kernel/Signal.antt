-- ===== src/Kernel/Signal.antt =====
-- kernel/signal.c and `notify_parent` of kernel/exit.c: sending signals, the masks and the actions.
-- A mask is a 64-bit number whose bit n - 1 stands for signal n.
pub mod Mask
pub mod Send
pub mod Depth
mod Tests
use mini_os.Prelude.{
  ℕ, zero, suc, ◌+◌, ◌-◌, ◌^◌, Bool, true, false, not, ◌&&◌, ◌||◌, Option, none, some, List, [],
  ◌∷◌, ltb, leb, ◌==◌, if◌then◌else◌, update, bit_and, bit_or, complement,
}
use mini_os.Prelude.Int.{ℤ, pos, negsuc}
use mini_os.Kernel.Task.{
  Ret, ok, err, eperm, esrch, eintr, efault, einval, TaskState, task_running, task_sleeping,
  task_stopped, child_event_continued, SigAction, Task, Kernel, current, set_task, is_running,
  is_sleeping, is_stopped, is_zombie, is_dead,
}
use mini_os.Kernel.Sched.{wake_up_process, sched_block}

abbrev pub nsig : ℕ
nsig = 64

abbrev pub sigkill : ℕ
sigkill = 9

abbrev pub sigchld : ℕ
sigchld = 17

abbrev pub sigcont : ℕ
sigcont = 18

abbrev pub sigstop : ℕ
sigstop = 19

abbrev pub sigtstp : ℕ
sigtstp = 20

abbrev pub sigttin : ℕ
sigttin = 21

abbrev pub sigttou : ℕ
sigttou = 22

-- SIG_BIT, for a signal from 1 on.
abbrev pub sig_bit : ℕ → ℕ
sig_bit sig = 2 ^ (sig - 1)

-- `x & ~m`
unfoldable pub clear_bits : ℕ → ℕ → ℕ
clear_bits x m = bit_and x (complement 64 m)

abbrev pub sig_unblockable : ℕ
sig_unblockable = bit_or (sig_bit sigkill) (sig_bit sigstop)

abbrev pub sig_stop_mask : ℕ
sig_stop_mask =
    bit_or (bit_or (bit_or (sig_bit sigstop) (sig_bit sigtstp)) (sig_bit sigttin)) (sig_bit sigttou)

abbrev pub signal_valid : ℤ → Bool
signal_valid (pos sig) = ltb sig nsig
signal_valid (negsuc _) = false

abbrev pub sig_kernel_stop : ℕ → Bool
sig_kernel_stop sig = sig == sigstop || sig == sigtstp || sig == sigttin || sig == sigttou

unfoldable pub signal_pending : Task → Bool
signal_pending r =
    let blocked = clear_bits r.blocked sig_unblockable in not (clear_bits r.pending blocked == 0)

-- The walk of `find_task_by_pid` over the list of tasks.
unfoldable pub find_in : Kernel → ℕ → List ℕ → Option ℕ
find_in k pid [] = none
find_in k pid (t ∷ ts) =
    let r = k.task t in
    if r.pid == pid && r.is_user && not (is_dead r.state) then some t else find_in k pid ts

unfoldable pub find_task_by_pid : Kernel → ℤ → Option ℕ
unfolding find_in
find_task_by_pid k (negsuc _) = none
find_task_by_pid k (pos pid) = if pid == 0 then none else find_in k pid k.all_tasks

-- `signal_queue` up to the wake-ups: the pending bits of the receiver.
unfoldable pub queue_bits : ℕ → ℕ → ℕ
queue_bits pending sig =
    let added = bit_or pending (sig_bit sig) in
    if sig == sigcont
    then clear_bits added sig_stop_mask
    else if sig_kernel_stop sig
    then clear_bits added (sig_bit sigcont)
    else added

-- `signal_queue` and `notify_parent` call each other: a continued child notifies its parent. The
-- number counts the calls left. An `exit_signal` is 0 or SIGCHLD (kernel/fork.c), so the parent's
-- signal is not SIGCONT and two calls are enough.
mutual
  pub signal_queue : ℕ → Kernel → ℕ → ℕ → Kernel
  signal_queue zero k t sig = k
  signal_queue (suc calls) k t sig =
      let r = k.task t in
      let bits : Task = record r { pending = queue_bits r.pending sig } in
      let queued = set_task k t bits in
      let resumed : Task = record bits {
        state = task_running;
        wait_event = child_event_continued;
      } in
      let notified = notify_parent calls (set_task k t resumed) t in
      if not (ltb sig nsig) || sig == 0
      then k
      else if is_stopped r.state && sig == sigcont
      then wake_up_process notified t
      else if is_sleeping r.state && signal_pending bits
      then wake_up_process queued t
      else if is_stopped r.state && sig == sigkill
      then wake_up_process queued t
      else queued

  pub notify_parent : ℕ → Kernel → ℕ → Kernel
  notify_parent zero k child = k
  notify_parent (suc calls) k child = elim ((k.task child).parent) [
    | none ↦ k
    | some parent ↦
        let exit_signal = (k.task child).exit_signal in
        let sent =
          signal_queue calls k parent (if exit_signal == 0 then sigchld else exit_signal) in
        if is_sleeping (sent.task parent).state then wake_up_process sent parent else sent
  ]

unfoldable pub signal_send : Kernel → ℕ → ℕ → Kernel
signal_send k t sig = signal_queue 3 k t sig

-- The calls that `do_exit`, `do_signal_stop` and `signal_queue` make with a child.
unfoldable pub notify_parent_of : Kernel → ℕ → Kernel
notify_parent_of k child = notify_parent 2 k child
