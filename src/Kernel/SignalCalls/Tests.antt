-- ===== src/Kernel/SignalCalls/Tests.antt =====
-- Runs of the signal system calls of kernel/signal.c, and their theorems at concrete calls.

-- Task 10 asks to block every signal.
