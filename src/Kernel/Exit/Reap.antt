-- ===== src/Kernel/Exit/Reap.antt =====
-- kernel/exit.c: reaping a zombie child, and the exit of a task.
use mini_os.Prelude.{
  ℕ, ◌≡◌, Bool, true, false, ◌&&◌, Option, none, some, List, [], ◌∷◌, refl, arith, ◌==◌, Bool-cases,
  inl, inr, has, distinct, without, has-without_self,
}
use mathlib.Core.Path.{subst}
use mini_os.Prelude.Int.{ℤ}
use mini_os.Kernel.Task.{
  task_zombie, child_event_none, Task, Kernel, current, set_task, linked, is_zombie,
}
use mini_os.Kernel.Sched.{dequeue_task, dequeue_task_locked}
use mini_os.Kernel.Sched.Invariant.{RqValid, set_task-RqValid}
use mini_os.Kernel.Sched.Queueing.{dequeue_task-Unqueued}
use mini_os.Kernel.Sched.Pick.{schedule-RqValid}
use mini_os.Kernel.Signal.{sig_bit, sigchld, clear_bits}
use mini_os.Kernel.Signal.Send.{OnCpu, set_task-OnCpu, notify_parent_of-OnCpu}
use mini_os.Kernel.SignalCalls.{UserOut, null_out, bad_out, good_out}
use mini_os.Kernel.Exit.{
  do_exit, is_child, first, find_child, free_task, copy_fails, Waited, no_child, bad_copy, reported,
  reap, wait_reap_zombie,
}

-- What the walk over a list finds.
data Walk (f : ℕ → Bool) (ts : List ℕ) : Option ℕ → Type 0 where
  missing : ((t : ℕ) → has t ts ≡ true → f t ≡ false) → Walk f ts none
  found : (t : ℕ) → has t ts ≡ true → f t ≡ true → Walk f ts (some t)

Walk-on :
    {f : ℕ → Bool} (x : ℕ) {ts : List ℕ} {o : Option ℕ}
    → f x ≡ false
    → Walk f ts o
    → Walk f (x ∷ ts) o
Walk-on {f = f} x e (missing h) = missing (λ t m. elim (Bool-cases (t == x)) [
  | inl same ↦ subst (λ y. f y ≡ false) {x = x} (ground arith) e
  | inr other ↦ h t (ground arith)
])
Walk-on x e (found t m g) = found t (ground arith) g

first-Walk : (f : ℕ → Bool) (ts : List ℕ) → Walk f ts (first f ts)
unfolding first
first-Walk f [] = missing (λ t m. absurd (ground arith))
first-Walk f (x ∷ ts) = elim (Bool-cases (f x)) [
  | inl e ↦ rw e (found x (ground arith) e)
  | inr e ↦ rw e (Walk-on x e (first-Walk f ts))
]

-- What `wait_reap_zombie` may come to for parent `p`.
pub data IsReap (k : Kernel) (p : ℕ) (pid : ℤ) (status : UserOut) : Waited × Kernel → Type 0 where
  none_dead :
      ((t : ℕ)
        → has t k.all_tasks ≡ true
        → is_child k p pid t ≡ true
        → is_zombie (k.task t).state ≡ false)
      → IsReap k p pid status (no_child, k)
  uncopied : status ≡ bad_out → IsReap k p pid status (bad_copy, k)
  reaped :
      (t : ℕ) (k' : Kernel)
      → has t k.all_tasks ≡ true
      → is_child k p pid t ≡ true
      → is_zombie (k.task t).state ≡ true
      → RqValid k'
      → linked k' t ≡ false
      → has t k'.all_tasks ≡ false
      → IsReap k p pid status (reported (k.task t).pid (k.task t).exit_code, k')

all_tasks-dequeue : (k : Kernel) (t : ℕ) → (dequeue_task k t).all_tasks ≡ k.all_tasks
unfolding dequeue_task dequeue_task_locked
all_tasks-dequeue k t = ground arith

this_cpu-dequeue : (k : Kernel) (t : ℕ) → (dequeue_task k t).this_cpu ≡ k.this_cpu
unfolding dequeue_task dequeue_task_locked
this_cpu-dequeue k t = ground arith

list_of-RqValid : {k : Kernel} (ts : List ℕ) → RqValid k → RqValid (record k { all_tasks = ts })
list_of-RqValid ts v = record { counts = v.counts; once = v.once; home = v.home }

free_task-gone :
    {k : Kernel} (t : ℕ)
    → RqValid k
    → distinct k.all_tasks ≡ true
    → RqValid (free_task k t)
      × (linked (free_task k t) t ≡ false)
      × (has t (free_task k t).all_tasks ≡ false)
unfolding free_task
free_task-gone {k} t v d =
    let off = dequeue_task-Unqueued t v in
    (
      list_of-RqValid (without t (dequeue_task k t).all_tasks) off.valid,
      off.off,
      rw (all_tasks-dequeue k t) (has-without_self t k.all_tasks d),
    )

and_right : {a b : Bool} → a ≡ true → (a && b) ≡ false → b ≡ false
and_right h e = ground arith

and_both : {a b : Bool} → (a && b) ≡ true → (a ≡ true) × (b ≡ true)
and_both e = (ground arith, ground arith)

bad_of : (o : UserOut) → copy_fails o ≡ true → o ≡ bad_out
bad_of null_out e = absurd (ground arith)
bad_of bad_out e = refl
bad_of good_out e = absurd (ground arith)

reap-IsReap :
    {k : Kernel} (p : ℕ) (pid : ℤ) (status : UserOut) {o : Option ℕ}
    → RqValid k
    → distinct k.all_tasks ≡ true
    → Walk (λ t. is_child k p pid t && is_zombie (k.task t).state) k.all_tasks o
    → IsReap k p pid status (reap k p status o)
unfolding reap
reap-IsReap p pid status v d (missing h) = none_dead (λ t m c. and_right c (h t m))
reap-IsReap {k} p pid status v d (found t m e) = elim (Bool-cases (copy_fails status)) [
  | inl bad ↦ rw bad (uncopied (bad_of status bad))
  | inr good ↦
      let r = k.task p in
      let cleared : Task = record r { pending = clear_bits r.pending (sig_bit sigchld) } in
      let (valid, off, gone) =
        free_task-gone {k = set_task k p cleared} t (set_task-RqValid p cleared v refl) d in
      rw good (
        reaped t (free_task (set_task k p cleared) t) m (and_both e).0 (and_both e).1 valid off
          gone)
]

-- With valid run queues and no task twice in the list of tasks, `wait_reap_zombie` finds nothing
-- only if no wanted child is a zombie; it fails only if the status cannot be copied, and then
-- changes nothing; and else it reports the pid and the exit code of a wanted zombie child, which is
-- afterwards on no run queue and no longer in the list of tasks. A child is wanted where the pid
-- asked for is -1, or its low 32 bits are the child's pid.
pub wait_reap_zombie-IsReap :
    {k : Kernel} (p : ℕ) (pid : ℤ) (status : UserOut)
    → RqValid k
    → distinct k.all_tasks ≡ true
    → IsReap k p pid status (wait_reap_zombie k p pid status)
unfolding wait_reap_zombie find_child
wait_reap_zombie-IsReap {k} p pid status v d =
    reap-IsReap p pid status v d (first-Walk _ k.all_tasks)

-- With valid run queues and one of the four processors executing, the exit of a task, with the
-- notice to its parent and the switch to another task, keeps the run queues valid.
pub do_exit-RqValid : {k : Kernel} (code : ℕ) → OnCpu k → RqValid (do_exit k code)
unfolding do_exit
do_exit-RqValid {k} code v =
    let t = current k in
    let ended : Task = record (k.task t) {
      exit_code = code;
      wait_event = child_event_none;
      state = task_zombie;
    } in
    let w : OnCpu (set_task k t ended) = set_task-OnCpu t ended v refl in
    let off : OnCpu (dequeue_task (set_task k t ended) t) = record {
      queues = (dequeue_task-Unqueued t w.queues).valid;
      cpu = omega (arith, this_cpu-dequeue (set_task k t ended) t, w.cpu);
    } in
    let told = notify_parent_of-OnCpu t off in schedule-RqValid told.queues told.cpu
