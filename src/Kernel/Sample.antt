-- ===== src/Kernel/Sample.antt =====
-- A small system to run the functions of kernel/ on.
use mini_os.Prelude.{ℕ, ◌<◌, true, false, none, [], ◌∷◌, arith, leb, ◌==◌, if◌then◌else◌}
use mini_os.Kernel.Task.{task_running, task_sleeping, child_event_none, SigAction, Task, Kernel}
use mini_os.Kernel.Sched.Invariant.{RqValid}
use mini_os.Kernel.Signal.Send.{OnCpu}

abbrev pub default : SigAction
default = record { sa_handler = 0; sa_flags = 0; sa_restorer = 0; sa_mask = 0 }

-- Task `t` of the system: 0 to 3 are idle tasks, 10 to 12 are on processor 1, 20 is asleep.
abbrev pub task_of : ℕ → Task
task_of t = record {
  pid = if leb t 3 then 0 else t;
  tgid = if leb t 3 then 0 else t;
  state = if t == 20 then task_sleeping else task_running;
  has_stack = true;
  cpu = if leb t 3 then t else 1;
  parent = none;
  time_slice = 10;
  need_resched = false;
  is_user = true;
  exit_code = 0;
  exit_signal = 0;
  stop_signal = 0;
  wait_event = child_event_none;
  pgid = t;
  sid = t;
  pending = 0;
  blocked = 0;
  saved_blocked = 0;
  restore_sigmask = false;
  in_syscall = false;
  orig_x0 = 0;
  actions = λ sig. default;
  wake_jiffies = 0;
}

-- Processor `here` executes; processor 1 runs task 10 and the others are idle.
abbrev pub system : ℕ → Kernel
system here = record {
  task = task_of;
  all_tasks = 10 ∷ 11 ∷ 12 ∷ 20 ∷ [];
  queue = λ c. if c == 1 then 10 ∷ 11 ∷ 12 ∷ [] else [];
  nr_running = λ c. if c == 1 then 3 else 0;
  idle = λ c. c;
  curr = λ c. if c == 1 then 10 else c;
  this_cpu = here;
  doorbells = [];
}

pub system-RqValid : (here : ℕ) → RqValid (system here)
system-RqValid here = record {
  counts = λ c l. ground arith;
  once = λ c. ground arith;
  home = λ c t h. ground arith;
}

pub system-OnCpu : (here : ℕ) → here < 4 → OnCpu (system here)
system-OnCpu here h = record { queues = system-RqValid here; cpu = h }
