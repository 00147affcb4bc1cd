-- ===== src/Kernel/DoSignal/Tests.antt =====
-- Runs of signal delivery (kernel/signal.c), and its theorems at a concrete task.
use mini_os.Prelude.{ℕ, ◌^◌, ◌≡◌, ◌-◌, refl, Bool, true, some, arith}
use mini_os.Kernel.Task.{Task, SigAction}
use mini_os.Kernel.Sample.{task_of}
use mini_os.Kernel.DoSignal.{do_signal, Regs, SignalFrame, setup_signal_frame, frame_mask}
use mini_os.Kernel.DoSignal.Rounds.{IsDelivery, do_signal-IsDelivery}

-- A task that handles and blocks every signal that it can, with SIGKILL pending.
abbrev action : SigAction
action = record { sa_handler = 0x4000; sa_flags = 0; sa_restorer = 0x5000; sa_mask = 0x2 }

abbrev doomed : Task
doomed = record (task_of 10) { pending = 0x100; blocked = 2 ^ 64 - 1; actions = λ sig. action }

abbrev before : Regs
before = record { x0 = 1; x30 = 2; elr_el1 = 3 }

abbrev during : Regs
during = record { x0 = 10; x30 = 0x5000; elr_el1 = 0x4000 }

abbrev frame : SignalFrame
frame = record { regs = before; user_sp = 0x8000; blocked = 2 ^ 64 - 1 }

abbrev everywhere : ℕ → Bool
everywhere _ = true

do_signal-IsDelivery_example : IsDelivery doomed (do_signal doomed).0
do_signal-IsDelivery_example = do_signal-IsDelivery doomed refl (omega arith)

frame_is_set :
    setup_signal_frame everywhere everywhere before 0x8000 10 action (frame_mask doomed)
    ≡ some (0x7ee0, frame, during)
unfolding setup_signal_frame frame_mask
frame_is_set = refl
