-- ===== src/Lib.antt =====
-- mini-os: pages, page tables and memory areas, scheduling, signals, processes, descriptors, pipes,
-- paths and the terminal.
--
-- mini-os is a small kernel for four AArch64 processors. This library models the core of it: the buddy
-- allocator of mm/page_alloc.c, the caches of objects of mm/slub.c, the areas and the page tables of
-- an address space of mm/mmap.c, with page faults and the copy for a fork, the run queues and the load
-- balancing of kernel/sched/core.c, the wait queues of kernel/sched/wait.c, the signals of
-- kernel/signal.c, the process groups of kernel/pid.c, exit and wait4 of kernel/exit.c, the
-- descriptors of fs/open.c and inodes of fs/inode.c, the ring of bytes of fs/pipe.c, the paths of
-- fs/namei.c, the tree of directory entries of fs/dcache.c, and the terminal of drivers/tty/tty.c.
--
-- Prelude              tests, list lemmas, single bits of 64-bit words, and signed numbers
-- Mm.PageAlloc         mm/page_alloc.c. The record `PageAlloc` holds the file's static variables, and each
--                      function has its name from there. A free list is the list of the page numbers on
--                      it; `block_order` and the reference counts are functions of the page number.
-- Mm.Mmap              mm/mmap.c: the areas, and brk, mmap, munmap and mprotect on them. The chain of
--                      `vm_next` is a list; `room` is how many more areas the cache of mm/slub.c can
--                      give, and an allocation fails where it is 0. The abstract view is `flags_at`: the
--                      flags of each address, or that it is not mapped.
-- Mm.PageTable         mm/mmap.c: the page tables, as trees of 512 entries over the allocator of Mm.PageAlloc;
--                      page faults, copy on write, mprotect and munmap on them, the copy for a fork and
--                      its end. `IsSpace others f pgd` says that an address space is in order: each table
--                      is full, the allocator counts each page once for each entry and for each of the
--                      uses in `others`, a count is below 2 ^ 31, and a writable page has one use.
-- Mm.Slub              mm/slub.c: one cache. The header of a slab is a function of its page, a free list
--                      the list of the addresses on it, and the abstract view is `allocated`: which
--                      objects are handed out. The page from `alloc_pages(0)` is an argument.
-- Kernel.Task          include/linux/sched.h, include/asm/smp.h, include/asm/signal.h and
--                      include/linux/errno.h: a task, and the state `Kernel` that the files share: the
--                      tasks behind their pointers, the list of all tasks, and each processor's queue,
--                      count, idle task and running task.
-- Kernel.Sched         kernel/sched/core.c, and `wake_up_process` of kernel/fork.c
-- Kernel.Wait          kernel/sched/wait.c: an entry is a number, and the queue a list of entries
-- Kernel.Signal        kernel/signal.c up to `next_pending_signal`, and `notify_parent` of kernel/exit.c
-- Kernel.SignalCalls   the system calls of kernel/signal.c on masks, actions and kill
-- Kernel.DoSignal      `do_signal` and what it calls to deliver a signal, and rt_sigreturn
-- Kernel.Pid           kernel/pid.c
-- Kernel.Exit          kernel/exit.c
-- Fs.Pipe              fs/pipe.c: the record `Pipe` is `struct pipe` without its queues of waiters
-- Fs.Files             fs/open.c and fs/inode.c: a task's table, and the open files and inodes behind
--                      their pointers, with the calls of destructors as a log
-- Fs.Namei             fs/namei.c: the functions on the text of a path. A string is the list of its bytes;
--                      `names` and `follow` are the description that they are compared with.
-- Fs.Dcache            fs/dcache.c: entries behind their pointers, each with the list of its children. The
--                      look-up in a directory, `ramfs_lookup_child`, is an argument, since fs/ramfs.c is
--                      not modelled, and so are the addresses that `kmalloc` will give.
-- Drivers.Tty          drivers/tty/tty.c: the record `Tty` is `struct tty` without its queue of waiters;
--                      `Console` adds that queue, the kernel and the characters that were echoed
-- Kernel.Sample        a system of four processors that the tests run on
--
-- The page tables take their pages from Mm.PageAlloc and ask the areas of Mm.Mmap what a fault may do,
-- and the directory entries cut paths as Fs.Namei does. The other parts meet in `Kernel`: a signal
-- that is sent wakes its receiver (Kernel.Signal calls `wake_up_process` of Kernel.Sched), an exit
-- leaves the run queue, notifies the parent and schedules, and a character wakes the readers
-- (Kernel.Wait) or signals the foreground group (Kernel.SignalCalls). The invariant `RqValid` of
-- Kernel.Sched.Invariant is what the scheduler promises to them: each count is its queue's length, no
-- queue has a task twice, and a queued task is on the queue of its own processor.
--
-- Bounds. An address, a mask and a register are numbers below 2 ^ 64, with the wrap-around written out
-- where the code can reach it. Pids and process groups are numbers;
-- `wait4` compares with the low 32 bits of its argument, and the other calls take one that an `int` holds. The loops run on fuel or on a list:
-- `buddy_free` merges at most `max_order - order` times, `alloc_pages` looks at `max_order + 1 -
-- order` lists, `floor_log2` halves a 64-bit number 64 times, `next_pending_signal` looks at 63 bits,
-- and `do_signal` takes 64 rounds, since each takes one of at most 63 pending signals away.
-- `signal_queue` and `notify_parent` call each other at most three times, unless a task's exit signal
-- is SIGCONT, which no task has: kernel/fork.c sets SIGCHLD. `mprotect_covered` looks at each area at
-- most once and `tty_rx_line_length_locked` at each of 256 places. The page tables have three levels
-- of 512 entries. A loop over a path has fuel for each of its bytes and takes one at least in a round,
-- and `path_up` has fuel for the depth of the entry, which is an argument. The theorems on page tables
-- take the count of a page to be below 2 ^ 31, and those on a fork to stay so; the other reference
-- counts are numbers without the bounds of `int`, and an end of a range that the code adds up wraps at
-- 2 ^ 64.
--
-- Steps. A function runs to its end in one step: the spin locks and the disabled interrupts of the
-- code are taken to keep others out. `schedule` ends where the next task would run; what the other
-- tasks do until the caller runs again is an argument of `sigsuspend_wait`. `wait4_pass` is one pass
-- of the loop of `ksys_wait4`, and `pipe_read` and `pipe_write` are one pass from their label `retry`
-- on. `do_signal` is modelled up to the first signal that it does not ignore.
--
-- Not modelled: the registers and the address space in `context_switch`, the open files and the memory
-- of a task in `do_exit` and `free_task`, the copies between kernel and user memory (whether a copy
-- succeeds is an argument), and where a signal frame may lie (`signal_frame_ok` is an argument, since
-- it reads the memory map). Of mm/mmap.c, the caches and the TLB are left out, and `do_map`, `mm_put`,
-- `mm_install` and the system calls around the modelled functions; `do_munmap`, `do_brk` and `mprotect` on areas
-- are in Mm.Mmap, and their loops over pages in Mm.PageTable, whose `munmap_space` is the whole of
-- `do_munmap`. The loops that sleep in `wait_event` and its interruptible form are not modelled, so a
-- read of the terminal begins when the wait is over. The pipes' queues of waiters are left out, so a
-- pipe's wake-ups leave no trace. Of fs/namei.c the calls on inodes, of fs/dcache.c `d_drop`, which
-- changes the working directories of tasks, and with them `ksys_openat`, the file systems, the making
-- of a pipe, `kmalloc` and the blocks larger than a page, timers and the other drivers are not part of
-- this library.
--
-- Limits of the model. `sigreturn` takes the frame that it reads as an argument, and of the registers the
-- frame carries `x0`, `x30` and `elr_el1`. An object that is freed again after its slab went back to the
-- page allocator is ignored, where the code would find the old header as long as the page is not
-- overwritten. Where the running task is queued on another processor and last there, `pick_next_task` has
-- no choice to give, where the code would take that queue's head for a task; no run with valid queues and
-- the running task at home comes to that.

pub mod Prelude
pub mod Mm
pub mod Kernel
pub mod Fs
pub mod Drivers
