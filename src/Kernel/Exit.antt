-- ===== src/Kernel/Exit.antt =====
-- kernel/exit.c: the end of a task, and `wait4`. `notify_parent` of that file is in Kernel/Signal.
-- The memory map and the open files of a task are not in the model, so `exit_files`, and the `mm_put`
-- and the freeing of memory in `free_task`, leave no trace here.
pub mod Reap
pub mod Wait
mod Tests
use mini_os.Prelude.{
  ℕ, zero, suc, ◌+◌, ◌*◌, ◌%◌, ◌^◌, Bool, true, false, not, ◌&&◌, ◌||◌, Option, none, some, List,
  [], ◌∷◌, ◌-◌, ltb, ◌==◌, if◌then◌else◌, bit_and, bit_or, without, update,
}
use mini_os.Prelude.Int.{ℤ, pos, negsuc}
use mini_os.Kernel.Task.{
  Ret, ok, err, echild, efault, einval, erestartsys, TaskState, task_zombie, task_sleeping,
  ChildEvent, child_event_none, child_event_stopped, child_event_continued, Task, Kernel, current,
  set_task, linked, is_zombie,
}
use mini_os.Kernel.Sched.{dequeue_task, enqueue_task, sched_block, schedule}
use mini_os.Kernel.Signal.{sig_bit, sigchld, clear_bits, signal_pending, notify_parent_of}
use mini_os.Kernel.SignalCalls.{UserOut, null_out, bad_out, good_out}

-- `do_exit` up to the interrupts being enabled, and `schedule`, from which the task never returns.
unfoldable pub do_exit : Kernel → ℕ → Kernel
do_exit k code =
    let t = current k in
    let ended : Task = record (k.task t) {
      exit_code = code;
      wait_event = child_event_none;
      state = task_zombie;
    } in
    schedule (notify_parent_of (dequeue_task (set_task k t ended) t) t)

-- `status & 0xff` of the argument as the register holds it, shifted by 8.
unfoldable pub ksys_exit : Kernel → ℕ → Kernel
ksys_exit k status =
    if not (k.task (current k)).is_user then k else do_exit k (bit_and status 0xff * 2 ^ 8)

-- The tests of the loops over children: the parent, and the pid, where -1 is any.
abbrev pub is_child_of : Option ℕ → ℕ → Bool
is_child_of none p = false
is_child_of (some q) p = q == p

-- `(pid_t)pid`, as the low 32 bits; from 2 ^ 31 on it is negative, and no task has it.
abbrev pub pid_bits : ℤ → ℕ
pid_bits (pos n) = n % 2 ^ 32
pid_bits (negsuc n) = 2 ^ 32 - 1 - n % 2 ^ 32

abbrev pub is_minus_one : ℤ → Bool
is_minus_one (negsuc zero) = true
is_minus_one _ = false

abbrev pub wanted : ℤ → ℕ → Bool
wanted pid task_pid = is_minus_one pid || (ltb (pid_bits pid) (2 ^ 31) && task_pid == pid_bits pid)

abbrev pub is_child : Kernel → ℕ → ℤ → ℕ → Bool
is_child k p pid t = is_child_of (k.task t).parent p && wanted pid (k.task t).pid

-- The first task of the list that passes a test: the walks that end at a `break`.
unfoldable pub first : (ℕ → Bool) → List ℕ → Option ℕ
first f [] = none
first f (t ∷ ts) = if f t then some t else first f ts

abbrev pub any_state : TaskState → Bool
any_state _ = true

-- `find_child`; the state -1 is `any_state`.
unfoldable pub find_child : Kernel → ℕ → ℤ → (TaskState → Bool) → Option ℕ
unfolding first
find_child k p pid state = first (λ t. is_child k p pid t && state (k.task t).state) k.all_tasks

-- `task_detach` of kernel/fork.c is the second half.
unfoldable pub free_task : Kernel → ℕ → Kernel
free_task k t = let k' = dequeue_task k t in record k' { all_tasks = without t k'.all_tasks }

abbrev pub same_event : ChildEvent → ChildEvent → Bool
same_event child_event_none child_event_none = true
same_event child_event_stopped child_event_stopped = true
same_event child_event_continued child_event_continued = true
same_event _ _ = false

-- What a helper of `wait4` came to: nothing found (-1), the copy of the status failed, or a child and
-- its status.
pub data Waited : Type 0 where
  no_child bad_copy : Waited
  reported : (pid status : ℕ) → Waited

abbrev copy_fails : UserOut → Bool
copy_fails bad_out = true
copy_fails _ = false

abbrev pub w_continued : ℕ
w_continued = 0xffff

abbrev pub event_code : ChildEvent → Task → ℕ
event_code child_event_stopped r = bit_or (r.stop_signal * 2 ^ 8) 0x7f
event_code _ r = w_continued

take_event : Kernel → ChildEvent → UserOut → Option ℕ → Waited × Kernel
take_event k event status none = (no_child, k)
take_event k event status (some t) =
    let k' = set_task k t (record (k.task t) { wait_event = child_event_none }) in
    if copy_fails status
    then (bad_copy, k')
    else (reported (k.task t).pid (event_code event (k.task t)), k')

unfoldable pub wait_event_child : Kernel → ℕ → ℤ → ChildEvent → UserOut → Waited × Kernel
unfolding take_event first
wait_event_child k p pid event status =
    take_event k event status
      (first (λ t. is_child k p pid t && same_event (k.task t).wait_event event) k.all_tasks)

reap : Kernel → ℕ → UserOut → Option ℕ → Waited × Kernel
reap k p status none = (no_child, k)
reap k p status (some t) =
    let r = k.task p in
    let told = set_task k p (record r { pending = clear_bits r.pending (sig_bit sigchld) }) in
    if copy_fails status
    then (bad_copy, k)
    else (reported (k.task t).pid (k.task t).exit_code, free_task told t)

unfoldable pub wait_reap_zombie : Kernel → ℕ → ℤ → UserOut → Waited × Kernel
unfolding reap
wait_reap_zombie k p pid status = reap k p status (find_child k p pid is_zombie)

-- Bits of `options`: WNOHANG, WUNTRACED and WCONTINUED.
pub record Options : Type 0 where
  pub wnohang : Bool
  pub wuntraced : Bool
  pub wcontinued : Bool

-- What a pass of the loop of `ksys_wait4` comes to: a result with the status written, another pass
-- at once, or another pass after a sleep.
pub data Pass : Type 0 where
  returns : Ret → Option ℕ → Pass
  again sleeps : Pass

-- Steps 6 and 7.
interrupted : Kernel → ℕ → Pass × Kernel
interrupted k p =
    let r = k.task p in
    let chld_h = (r.actions sigchld).sa_handler in
    if not (signal_pending r)
    then (sleeps, k)
    else if not (bit_and r.pending (sig_bit sigchld) == 0) && (chld_h == 0 || chld_h == 1)
    then (again, set_task k p (record r { pending = clear_bits r.pending (sig_bit sigchld) }))
    else (returns (err erestartsys) none, k)

-- Steps 4 and 5.
childless : Kernel → ℕ → ℤ → Options → Option ℕ → Pass × Kernel
unfolding interrupted
childless k p pid o none = (returns (err echild) none, k)
childless k p pid o (some _) = if o.wnohang then (returns (ok 0) none, k) else interrupted k p

-- Step 2 or 3: a report or a bad copy returns, and otherwise the next step is taken.
after_event : Waited × Kernel → (Kernel → Pass × Kernel) → Pass × Kernel
after_event (no_child, k) next = next k
after_event (bad_copy, k) next = (returns (err efault) none, k)
after_event (reported pid status, k) next = (returns (ok pid) (some status), k)

-- Step 1: a bad copy goes on as if there were no zombie.
after_reap : Waited × Kernel → (Kernel → Pass × Kernel) → Pass × Kernel
after_reap (no_child, k) next = next k
after_reap (bad_copy, k) next = next k
after_reap (reported pid status, k) next = (returns (ok pid) (some status), k)

unfoldable pub wait4_pass : Kernel → ℕ → ℤ → UserOut → Options → Pass × Kernel
unfolding childless after_event after_reap
wait4_pass k p pid status o = after_reap (wait_reap_zombie k p pid status) (λ k1.
    after_event
      (if o.wuntraced then wait_event_child k1 p pid child_event_stopped status else (no_child, k1))
      (λ k2.
        after_event
          (if o.wcontinued
            then wait_event_child k2 p pid child_event_continued status
            else (no_child, k2))
          (λ k3. childless k3 p pid o (find_child k3 p pid any_state))))
