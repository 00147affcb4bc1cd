-- ===== src/Kernel/Wait.antt =====
-- kernel/sched/wait.c: wait queues.
-- An entry is a number; `waiter` is its field `task`, and `entries` the chain from `head` on. The
-- lock of the queue makes each function one step.
pub mod Keep
pub mod Wake
mod Tests
use mini_os.Prelude.{
  ℕ, zero, suc, Bool, true, false, not, ◌&&◌, Option, none, some, List, [], ◌∷◌, if◌then◌else◌, has,
  without, update,
}
use mini_os.Kernel.Task.{
  Ret, ok, err, erestartsys, Task, TaskState, task_running, task_sleeping, Kernel, current,
  set_task, linked, is_sleeping,
}
use mini_os.Kernel.Sched.{enqueue_task, dequeue_task, wake_up_process, schedule}
use mini_os.Kernel.Signal.{signal_pending}

pub record WaitQueue : Type 0 where
  pub entries : List ℕ
  pub waiter : ℕ → Option ℕ

unfoldable pub add_wait_queue : WaitQueue → ℕ → WaitQueue
add_wait_queue wq e = record wq { entries = e ∷ wq.entries }

-- The loop of `remove_wait_queue`: the first link to the entry is skipped.
unfoldable pub remove_wait_queue : WaitQueue → ℕ → WaitQueue
remove_wait_queue wq e = record wq { entries = without e wq.entries }

-- `if (!entry->task) entry->task = current`
abbrev pub waiter_or : Option ℕ → ℕ → Option ℕ
waiter_or none t = some t
waiter_or (some u) t = some u

unfoldable pub prepare_to_wait : WaitQueue → ℕ → Kernel → WaitQueue × Kernel
prepare_to_wait wq e k =
    let me = current k in
    (
      record {
        entries = if has e wq.entries then wq.entries else e ∷ wq.entries;
        waiter = update wq.waiter e (waiter_or (wq.waiter e) me);
      },
      dequeue_task (set_task k me (record (k.task me) { state = task_sleeping })) me,
    )

unfoldable pub finish_wait : WaitQueue → ℕ → Kernel → WaitQueue × Kernel
finish_wait wq e k =
    let me = current k in
    (
      remove_wait_queue wq e,
      if not (linked k me)
          then enqueue_task k me
          else set_task k me (record (k.task me) { state = task_running }),
    )

-- One turn of the loop of `wake_up`.
unfoldable pub wake_one : Option ℕ → Kernel → Kernel
wake_one none k = k
wake_one (some t) k = if is_sleeping (k.task t).state then wake_up_process k t else k

unfoldable pub wake_entries : (waiter : ℕ → Option ℕ) → List ℕ → Kernel → Kernel
wake_entries waiter [] k = k
wake_entries waiter (e ∷ es) k = wake_entries waiter es (wake_one (waiter e) k)

unfoldable pub wake_up : WaitQueue → Kernel → Kernel
wake_up wq k = wake_entries wq.waiter wq.entries k
