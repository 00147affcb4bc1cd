-- ===== src/Kernel/Pid.antt =====
-- kernel/pid.c: process groups and sessions.
pub mod Groups
mod Tests
use mini_os.Prelude.{
  ℕ, zero, suc, Bool, true, false, not, ◌&&◌, ◌||◌, Option, none, some, List, [], ◌∷◌, ◌==◌,
  if◌then◌else◌,
}
use mini_os.Prelude.Int.{ℤ, pos, negsuc}
use mini_os.Kernel.Task.{Ret, ok, err, eperm, esrch, einval, Task, Kernel, current, set_task}
use mini_os.Kernel.Signal.{find_task_by_pid}
use mini_os.Kernel.SignalCalls.{in_group}

unfoldable pub ksys_getpid : Kernel → Ret
ksys_getpid k = ok (k.task (current k)).tgid

unfoldable pub ksys_getpgrp : Kernel → Ret
ksys_getpgrp k = ok (k.task (current k)).pgid

-- The walk of `pgid_exists` over the list of tasks.
unfoldable pub group_in : Kernel → ℕ → List ℕ → Bool
group_in k pgid [] = false
group_in k pgid (t ∷ ts) = if in_group pgid k t then true else group_in k pgid ts

unfoldable pub pgid_exists : Kernel → ℕ → Bool
pgid_exists k pgid = if pgid == 0 then false else group_in k pgid k.all_tasks

-- `task == a`, for a pointer that may be NULL.
abbrev points_to : Option ℕ → ℕ → Bool
points_to none t = false
points_to (some p) t = p == t

-- `ksys_setpgid` once the pid is not 0, on the task found; the group is the pid where it is 0.
unfoldable pub set_group : Kernel → Option ℕ → (pid : ℕ) → ℤ → Ret × Kernel
set_group k none pid pgid = (err esrch, k)
set_group k (some t) pid (negsuc _) = (err einval, k)
set_group k (some t) pid (pos n) =
    let group = if n == 0 then pid else n in
    let r = k.task t in
    if not (t == current k) && not (points_to r.parent (current k))
    then (err esrch, k)
    else if not (group == pid) && not (pgid_exists k group)
    then (err eperm, k)
    else if r.sid == r.pid
    then (err eperm, k)
    else if not (r.sid == (k.task (current k)).sid)
    then (err eperm, k)
    else (ok 0, set_task k t (record r { pgid = group }))

unfoldable pub ksys_setpgid : Kernel → ℤ → ℤ → Ret × Kernel
unfolding set_group
ksys_setpgid k (negsuc n) pgid =
    if not (k.task (current k)).is_user then (err einval, k) else (err esrch, k)
ksys_setpgid k (pos n) pgid =
    let pid = if n == 0 then (k.task (current k)).pid else n in
    if not (k.task (current k)).is_user
    then (err einval, k)
    else set_group k (find_task_by_pid k (pos pid)) pid pgid

session_of : Kernel → Option ℕ → Ret
session_of k none = err esrch
session_of k (some t) = ok (k.task t).sid

unfoldable pub ksys_getsid : Kernel → ℤ → Ret
unfolding session_of
ksys_getsid k pid = if not (k.task (current k)).is_user then err esrch else elim pid [
  | pos zero ↦ ok (k.task (current k)).sid
  | pos (suc n) ↦ session_of k (find_task_by_pid k (pos (suc n)))
  | negsuc n ↦ session_of k (find_task_by_pid k (negsuc n))
]

unfoldable pub ksys_setsid : Kernel → Ret × Kernel
ksys_setsid k =
    let t = current k in
    let r = k.task t in
    if not r.is_user
    then (err einval, k)
    else if pgid_exists k r.pid
    then (err eperm, k)
    else (ok r.pid, set_task k t (record r { sid = r.pid; pgid = r.pid }))
