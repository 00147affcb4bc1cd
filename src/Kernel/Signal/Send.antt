-- ===== src/Kernel/Signal/Send.antt =====
-- Sending a signal (kernel/signal.c, kernel/exit.c): what the run queues and the receiver see of it.
use mini_os.Prelude.{
  ℕ, zero, suc, ◌<◌, ◌≡◌, Bool, true, false, not, ◌&&◌, ◌||◌, Option, none, some, refl, arith, ltb,
  ◌==◌, if◌then◌else◌,
}
use mini_os.Kernel.Task.{
  task_running, child_event_continued, Task, Kernel, nr_cpus, set_task, is_stopped, is_sleeping,
}
use mini_os.Kernel.Sched.{
  wake_up_process, enqueue_task, enqueue_task_cpu, enqueue_task_locked, resched_cpu,
  set_need_resched,
}
use mini_os.Kernel.Sched.Invariant.{RqValid, set_task-RqValid}
use mini_os.Kernel.Sched.Queueing.{wake_up_process-Queued}
use mini_os.Kernel.Signal.{
  nsig, sigcont, sigkill, sigchld, queue_bits, signal_pending, signal_queue, notify_parent,
  signal_send, notify_parent_of,
}

pub this_cpu-enqueue : (k : Kernel) (t : ℕ) → (enqueue_task k t).this_cpu ≡ k.this_cpu
unfolding enqueue_task enqueue_task_cpu enqueue_task_locked
this_cpu-enqueue k t = ground arith

this_cpu-resched : (k : Kernel) (c : ℕ) → (resched_cpu k c).this_cpu ≡ k.this_cpu
unfolding resched_cpu set_need_resched
this_cpu-resched k c = ground arith

pub this_cpu-wake : (k : Kernel) (t : ℕ) → (wake_up_process k t).this_cpu ≡ k.this_cpu
unfolding wake_up_process
this_cpu-wake k t = ground (
  arith,
  this_cpu-enqueue k t,
  this_cpu-resched (enqueue_task k t) ((enqueue_task k t).task t).cpu,
)

-- The run queues are valid and the executing processor is one of the four.
pub record OnCpu (k : Kernel) : Type 0 where
  pub queues : RqValid k
  pub cpu : k.this_cpu < nr_cpus

pub wake_up_process-OnCpu : {k : Kernel} (t : ℕ) → OnCpu k → OnCpu (wake_up_process k t)
wake_up_process-OnCpu {k} t v = record {
  queues = (wake_up_process-Queued t v.queues v.cpu).valid;
  cpu = omega (arith, this_cpu-wake k t, v.cpu);
}

pub set_task-OnCpu :
    {k : Kernel} (t : ℕ) (r : Task) → OnCpu k → r.cpu ≡ (k.task t).cpu → OnCpu (set_task k t r)
set_task-OnCpu t r v e = record { queues = set_task-RqValid t r v.queues e; cpu = v.cpu }

if-OnCpu : {x y : Kernel} (b : Bool) → OnCpu x → OnCpu y → OnCpu (if b then x else y)
if-OnCpu true v w = v
if-OnCpu false v w = w

option-OnCpu :
    {k : Kernel} (o : Option ℕ) (f : ℕ → Kernel)
    → OnCpu k
    → ((p : ℕ) → OnCpu (f p))
    → OnCpu (elim o [ none ↦ k | some p ↦ f p ])
option-OnCpu none f v w = v
option-OnCpu (some p) f v w = w p

mutual
  unfolding signal_queue notify_parent

  signal_queue-OnCpu :
      (calls : ℕ) {k : Kernel} (t sig : ℕ) → OnCpu k → OnCpu (signal_queue calls k t sig)
  signal_queue-OnCpu zero t sig v = v
  signal_queue-OnCpu (suc calls) {k} t sig v =
      let r = k.task t in
      let bits : Task = record r { pending = queue_bits r.pending sig } in
      let resumed : Task = record bits {
        state = task_running;
        wait_event = child_event_continued;
      } in
      let queued = set_task-OnCpu t bits v refl in
      let notified = notify_parent-OnCpu calls t (set_task-OnCpu t resumed v refl) in
      if-OnCpu (not (ltb sig nsig) || sig == 0) v (
        if-OnCpu (is_stopped r.state && sig == sigcont) (wake_up_process-OnCpu t notified) (
          if-OnCpu (is_sleeping r.state && signal_pending bits) (wake_up_process-OnCpu t queued) (
            if-OnCpu (is_stopped r.state && sig == sigkill) (wake_up_process-OnCpu t queued)
              queued)))

  notify_parent-OnCpu :
      (calls : ℕ) {k : Kernel} (child : ℕ) → OnCpu k → OnCpu (notify_parent calls k child)
  notify_parent-OnCpu zero child v = v
  notify_parent-OnCpu (suc calls) {k} child v =
      let exit_signal = (k.task child).exit_signal in
      let sig = if exit_signal == 0 then sigchld else exit_signal in
      option-OnCpu (k.task child).parent
        (λ p.
          let sent = signal_queue calls k p sig in
          if is_sleeping (sent.task p).state then wake_up_process sent p else sent)
        v
        (λ p. let w = signal_queue-OnCpu calls p sig v in if-OnCpu _ (wake_up_process-OnCpu p w) w)

-- With valid run queues and one of the four processors executing, sending any signal to any task,
-- with all the wake-ups and notices that follow, keeps this so.
pub signal_send-OnCpu : {k : Kernel} (t sig : ℕ) → OnCpu k → OnCpu (signal_send k t sig)
unfolding signal_send
signal_send-OnCpu t sig v = signal_queue-OnCpu 3 t sig v

pub notify_parent_of-OnCpu : {k : Kernel} (child : ℕ) → OnCpu k → OnCpu (notify_parent_of k child)
unfolding notify_parent_of
notify_parent_of-OnCpu child v = notify_parent-OnCpu 2 child v
