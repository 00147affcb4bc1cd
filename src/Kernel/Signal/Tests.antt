-- ===== src/Kernel/Signal/Tests.antt =====
-- Runs of the signal functions of kernel/signal.c, and their theorems at concrete signals.
use mini_os.Prelude.{◌≡◌, arith}
use mini_os.Kernel.Sample.{system}
use mini_os.Kernel.Signal.{signal_queue, signal_send}
use mini_os.Kernel.Signal.Depth.{signal_send-enough}

-- SIGCONT (18) cancels a pending SIGSTOP (bit 18).

signal_send-enough_example : signal_queue 5 (system 0) 20 18 ≡ signal_send (system 0) 20 18
signal_send-enough_example = signal_send-enough 2 (system 0) 20 18 (omega arith)
