-- ===== src/Kernel.antt =====
-- The directory kernel/: tasks, run queues, wait queues, signals, process groups, exit and wait.
pub mod Task
pub mod Sched
pub mod Signal
pub mod Wait
pub mod SignalCalls
pub mod DoSignal
pub mod Pid
pub mod Exit
pub mod Sample
