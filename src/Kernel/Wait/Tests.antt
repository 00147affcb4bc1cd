-- ===== src/Kernel/Wait/Tests.antt =====
-- The theorems on kernel/sched/wait.c at a queue with one waiter.
use mini_os.Prelude.{some, [], ◌∷◌, refl, arith, if◌then◌else◌, ◌==◌}
use mini_os.Kernel.Sample.{system, system-OnCpu}
use mini_os.Kernel.Sched.Queueing.{Queued, Unqueued}
use mini_os.Kernel.Wait.{WaitQueue, wake_up, prepare_to_wait}
use mini_os.Kernel.Wait.Wake.{prepare_to_wait-wake_up}

abbrev waiting : WaitQueue
waiting = record { entries = 5 ∷ []; waiter = λ e. if e == 5 then some 20 else some 10 }

prepare_to_wait-wake_up_example :
    Unqueued (prepare_to_wait waiting 6 (system 1)).1 10
    × Queued
        (wake_up (prepare_to_wait waiting 6 (system 1)).0 (prepare_to_wait waiting 6 (system 1)).1)
        10
prepare_to_wait-wake_up_example =
    prepare_to_wait-wake_up waiting 6 (system 1) (system-OnCpu 1 (omega arith)) refl
