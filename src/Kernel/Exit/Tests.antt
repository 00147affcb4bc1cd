-- ===== src/Kernel/Exit/Tests.antt =====
-- The theorems on exit and `wait4` (kernel/exit.c) at a concrete system.
use mini_os.Prelude.{refl, true, false, arith, some, ◌==◌, if◌then◌else◌}
use mini_os.Prelude.Int.{negsuc}
use mini_os.Kernel.Task.{task_zombie, Kernel}
use mini_os.Kernel.Sched.Invariant.{RqValid}
use mini_os.Kernel.Sample.{system, task_of}
use mini_os.Kernel.SignalCalls.{good_out}
use mini_os.Kernel.Exit.{wait_reap_zombie, Options}
use mini_os.Kernel.Exit.Reap.{IsReap, wait_reap_zombie-IsReap}

-- Task 20 is a zombie, and a child of task 10.
abbrev family : Kernel
family = record (system 1) {
  task = λ t.
      if t == 20
      then record (task_of 20) { state = task_zombie; parent = some 10; exit_code = 0x100 }
      else task_of t;
}

family-RqValid : RqValid family
family-RqValid = record {
  counts = λ c l. ground arith;
  once = λ c. ground arith;
  home = λ c t h. ground arith;
}

abbrev no_hang : Options
no_hang = record { wnohang = true; wuntraced = true; wcontinued = false }

wait_reap_zombie-IsReap_example :
    IsReap family 10 (negsuc 0) good_out (wait_reap_zombie family 10 (negsuc 0) good_out)
wait_reap_zombie-IsReap_example = wait_reap_zombie-IsReap 10 (negsuc 0) good_out family-RqValid refl
