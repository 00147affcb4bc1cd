-- ===== src/Kernel/Task.antt =====
-- include/linux/sched.h, include/asm/signal.h, include/asm/smp.h and include/linux/errno.h: tasks,
-- run queues and the state that the files of kernel/ share.
-- A pointer to a task is a number, and `task` the memory behind it: idle tasks all have pid 0, so a
-- pid does not name a task. The links `run_list` and `task_list` are the lists that they make up.
use mini_os.Prelude.{ℕ, zero, suc, Bool, true, false, ◌||◌, Option, List, update, has}

-- The errors that the modelled code returns, each as its negated number. `eperm` is -1, which some
-- helpers return for "nothing found".
pub data Errno : Type 0 where
  eperm esrch eintr e2big ebadf echild eagain enomem eacces efault einval emfile epipe : Errno
  enoent enametoolong erange erestartsys : Errno

-- A `long` that is a count or an id, or a negated error.
pub data Ret : Type 0 where
  ok : ℕ → Ret
  err : Errno → Ret

pub data TaskState : Type 0 where
  task_running task_idle task_sleeping task_stopped task_zombie task_dead : TaskState

pub data ChildEvent : Type 0 where
  child_event_none child_event_stopped child_event_continued : ChildEvent

-- `sa_handler` is an address: 0 is SIG_DFL and 1 is SIG_IGN.
pub record SigAction : Type 0 where
  pub sa_handler : ℕ
  pub sa_flags : ℕ
  pub sa_restorer : ℕ
  pub sa_mask : ℕ

-- `struct task_struct`, less the registers, the memory map and the open files.
pub record Task : Type 0 where
  pub pid : ℕ
  pub tgid : ℕ
  pub state : TaskState
  pub has_stack : Bool
  pub cpu : ℕ
  pub parent : Option ℕ
  pub time_slice : ℕ
  pub need_resched : Bool
  pub is_user : Bool
  pub exit_code : ℕ
  pub exit_signal : ℕ
  pub stop_signal : ℕ
  pub wait_event : ChildEvent
  pub pgid : ℕ
  pub sid : ℕ
  pub pending : ℕ
  pub blocked : ℕ
  pub saved_blocked : ℕ
  pub restore_sigmask : Bool
  pub in_syscall : Bool
  pub orig_x0 : ℕ
  pub actions : ℕ → SigAction
  pub wake_jiffies : ℕ

-- The tasks, the list of all of them, and the `struct cpu` of each processor: its run queue, front
-- first, the queue's count, its idle task and the task that it runs. `this_cpu` is the processor
-- that executes, and `doorbells` are the reschedule interrupts sent, latest first.
pub record Kernel : Type 0 where
  pub task : ℕ → Task
  pub all_tasks : List ℕ
  pub queue : ℕ → List ℕ
  pub nr_running : ℕ → ℕ
  pub idle : ℕ → ℕ
  pub curr : ℕ → ℕ
  pub this_cpu : ℕ
  pub doorbells : List ℕ

abbrev pub nr_cpus : ℕ
nr_cpus = 4

abbrev pub sched_time_slice : ℕ
sched_time_slice = 10

-- `get_current`
abbrev pub current : Kernel → ℕ
current k = k.curr k.this_cpu

-- A write to the fields of task `t`.
abbrev pub set_task : Kernel → ℕ → Task → Kernel
set_task k t r = record k { task = update k.task t r }

abbrev pub in_queues : ℕ → (ℕ → List ℕ) → ℕ → Bool
in_queues zero q t = false
in_queues (suc n) q t = has t (q n) || in_queues n q t

-- `list_is_linked(&task->run_list)`
abbrev pub linked : Kernel → ℕ → Bool
linked k t = in_queues nr_cpus k.queue t

abbrev pub is_running : TaskState → Bool
is_running task_running = true
is_running _ = false

abbrev pub is_sleeping : TaskState → Bool
is_sleeping task_sleeping = true
is_sleeping _ = false

abbrev pub is_stopped : TaskState → Bool
is_stopped task_stopped = true
is_stopped _ = false

abbrev pub is_zombie : TaskState → Bool
is_zombie task_zombie = true
is_zombie _ = false

abbrev pub is_dead : TaskState → Bool
is_dead task_dead = true
is_dead _ = false
