-- ===== src/Kernel/Pid/Tests.antt =====
-- The theorems on process groups (kernel/pid.c) at a concrete system.
use mini_os.Prelude.{arith, ◌==◌, if◌then◌else◌}
use mini_os.Kernel.Task.{Kernel}
use mini_os.Kernel.Sample.{system, task_of}
use mini_os.Kernel.Pid.Groups.{IsLed}

-- The tasks of the sample, where the pids are the numbers of the tasks and no task leads a session.
abbrev followers : Kernel
followers = record (system 1) {
  task = λ t. record (task_of t) { pid = t; pgid = 1; sid = if t == 0 then 1 else 0 };
}

followers-IsLed : IsLed followers
followers-IsLed t e = absurd (ground arith)
