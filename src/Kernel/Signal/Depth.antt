-- ===== src/Kernel/Signal/Depth.antt =====
-- How deep the calls of `signal_queue` (kernel/signal.c) and `notify_parent` (kernel/exit.c) go.
use mini_os.Prelude.{
  ℕ, suc, ◌≡◌, ◌≢◌, ◌∙◌, false, not, ◌&&◌, ◌||◌, none, some, sym, ap, arith, ltb, ◌==◌,
  if◌then◌else◌,
}
use mathlib.Core.Path.{fun_ext}
use mini_os.Kernel.Task.{
  task_running, child_event_continued, Task, Kernel, set_task, is_stopped, is_sleeping,
}
use mini_os.Kernel.Sched.{wake_up_process}
use mini_os.Kernel.Signal.{
  nsig, sigcont, sigkill, sigchld, queue_bits, signal_pending, signal_queue, notify_parent,
  signal_send,
}

-- The signal with which a child notifies its parent.
abbrev pub notice : Task → ℕ
notice r = if r.exit_signal == 0 then sigchld else r.exit_signal

-- A signal other than SIGCONT makes no further call.
queue_shallow :
    (a b : ℕ) (k : Kernel) (t sig : ℕ)
    → sig ≢ sigcont
    → signal_queue (suc a) k t sig ≡ signal_queue (suc b) k t sig
unfolding signal_queue
queue_shallow a b k t sig n =
    let off : (is_stopped (k.task t).state && sig == sigcont) ≡ false = ground arith in rw off

notify_shallow :
    (a b : ℕ) (k : Kernel) (child : ℕ)
    → notice (k.task child) ≢ sigcont
    → notify_parent (suc (suc a)) k child ≡ notify_parent (suc (suc b)) k child
unfolding notify_parent
notify_shallow a b k child n =
    ap {B = Kernel}
      (λ (f : ℕ → Kernel). elim ((k.task child).parent) [
        | none ↦ k
        | some p ↦ if is_sleeping ((f p).task p).state then wake_up_process (f p) p else f p
      ])
      (fun_ext (λ p. queue_shallow a b k p (notice (k.task child)) n))

-- If the receiver's notice to its parent is not SIGCONT, `signal_send` has made every call that
-- there is to make: more calls left would change nothing.
pub signal_send-enough :
    (more : ℕ) (k : Kernel) (t sig : ℕ)
    → notice (k.task t) ≢ sigcont
    → signal_queue (suc (suc (suc more))) k t sig ≡ signal_send k t sig
unfolding signal_send signal_queue
signal_send-enough more k t sig n =
    let r = k.task t in
    let bits : Task = record r { pending = queue_bits r.pending sig } in
    let queued = set_task k t bits in
    let resumed : Task = record bits { state = task_running; wait_event = child_event_continued } in
    let start = set_task k t resumed in
    let same : notice (start.task t) ≡ notice r = ground arith in
    ap {B = Kernel}
      (λ (notified : Kernel).
        if not (ltb sig nsig) || sig == 0
        then k
        else if is_stopped r.state && sig == sigcont
        then wake_up_process notified t
        else if is_sleeping r.state && signal_pending bits
        then wake_up_process queued t
        else if is_stopped r.state && sig == sigkill
        then wake_up_process queued t
        else queued)
      (notify_shallow more 0 start t (λ e. n (sym same ∙ e)))
