-- ===== src/Kernel/Pid/Groups.antt =====
-- kernel/pid.c: what setpgid and setsid do to process groups and sessions.
use mini_os.Prelude.{
  ℕ, ◌≡◌, ◌≢◌, ◌⊎◌, Bool, true, false, not, Option, none, some, List, [], ◌∷◌, refl, arith, ◌==◌,
  if◌then◌else◌, inl, inr, has,
}
use mini_os.Prelude.Int.{ℤ, pos, negsuc}
use mini_os.Kernel.Task.{Ret, ok, err, eperm, esrch, einval, Errno, Kernel, current, set_task}
use mini_os.Kernel.Signal.{find_task_by_pid}
use mini_os.Kernel.SignalCalls.{in_group}
use mini_os.Kernel.Pid.{group_in, pgid_exists, set_group, ksys_setpgid, ksys_setsid}

-- Every session leader leads its process group.
abbrev pub IsLed : Kernel → Type 0
IsLed k = (t : ℕ) → (k.task t).sid ≡ (k.task t).pid → (k.task t).pgid ≡ (k.task t).pid

set_group-IsLed :
    (k : Kernel) (o : Option ℕ) (pid : ℕ) (pgid : ℤ) → IsLed k → IsLed (set_group k o pid pgid).1
unfolding set_group
set_group-IsLed k none pid pgid h = h
set_group-IsLed k (some t) pid (negsuc n) h = h
set_group-IsLed k (some t) pid (pos n) h = λ s e. ground (arith, h s)

if-IsLed : (b : Bool) (x y : Ret × Kernel) → IsLed x.1 → IsLed y.1 → IsLed (if b then x else y).1
if-IsLed true x y h g = h
if-IsLed false x y h g = g

-- If every session leader leads its process group, `setpgid` keeps this so, with any arguments and
-- whether it succeeds or fails.
pub ksys_setpgid-IsLed : (k : Kernel) (pid pgid : ℤ) → IsLed k → IsLed (ksys_setpgid k pid pgid).1
unfolding ksys_setpgid
ksys_setpgid-IsLed k (negsuc n) pgid h =
    if-IsLed (not (k.task (current k)).is_user) (err einval, k) (err esrch, k) h h
ksys_setpgid-IsLed k (pos n) pgid h =
    let pid = if n == 0 then (k.task (current k)).pid else n in
    if-IsLed (not (k.task (current k)).is_user) (err einval, k)
      (set_group k (find_task_by_pid k (pos pid)) pid pgid) h
      (set_group-IsLed k (find_task_by_pid k (pos pid)) pid pgid h)

group_in-absent :
    (k : Kernel) (pgid t : ℕ) (ts : List ℕ)
    → group_in k pgid ts ≡ false
    → has t ts ≡ true
    → in_group pgid k t ≡ false
unfolding group_in
group_in-absent k pgid t [] e h = absurd (ground arith)
group_in-absent k pgid t (x ∷ xs) e h = ground (arith, group_in-absent k pgid t xs)

-- The caller leads a new session and a new group, seen from task `t`; or the call failed and nothing
-- has changed.
abbrev pub Founded : Kernel → ℕ → Ret × Kernel → Type 0
Founded k t out =
    let me = k.task (current k) in
    ((out.0 ≡ ok me.pid)
      × ((out.1.task (current k)).sid ≡ me.pid)
      × ((out.1.task (current k)).pgid ≡ me.pid)
      × (t ≢ current k → out.1.task t ≡ k.task t)
      × (in_group me.pid k t ≡ false))
    ⊎ ((e : Errno) × (out ≡ (err e, k)))

-- Where `setsid` succeeds for a caller whose pid is not 0, the pid becomes its session and its
-- process group, no other task of the list changes, and no live user task of the list was in that
-- group before. Where it fails, nothing changes.
pub ksys_setsid-Founded :
    (k : Kernel) (t : ℕ)
    → has t k.all_tasks ≡ true
    → (k.task (current k)).pid ≢ 0
    → Founded k t (ksys_setsid k)
unfolding ksys_setsid pgid_exists
ksys_setsid-Founded k t h n =
    let positive : ((k.task (current k)).pid == 0) ≡ false = ground arith in
    rw positive
      (decide (k.task (current k)).is_user (group_in k (k.task (current k)).pid k.all_tasks) refl)
  where
    apart : t ≢ current k → (t == current k) ≡ false
    apart o = ground arith

    decide :
        (user found : Bool)
        → group_in k (k.task (current k)).pid k.all_tasks ≡ found
        → Founded k t (
            if not user
            then (err einval, k)
            else (if found then (err eperm, k) else (
              ok (k.task (current k)).pid,
              set_task k (current k) (record (k.task (current k)) {
                sid = (k.task (current k)).pid;
                pgid = (k.task (current k)).pid;
              }),
            )))
    decide false found e = inr (einval, refl)
    decide true true e = inr (eperm, refl)
    decide true false e = inl (
      refl,
      ground arith,
      ground arith,
      (λ o. rw (apart o)),
      group_in-absent k (k.task (current k)).pid t k.all_tasks e h,
    )
