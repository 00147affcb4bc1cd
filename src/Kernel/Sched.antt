-- ===== src/Kernel/Sched.antt =====
-- kernel/sched/core.c and `wake_up_process` of kernel/fork.c: the run queues, load balancing and the
-- choice of the next task. The locks make each function one step; registers and page tables, which
-- `context_switch` also changes, are not modelled. A count of tasks cannot overflow.
pub mod Invariant
pub mod Queueing
pub mod Migrate
pub mod Balance
pub mod Pick
mod Tests
use mini_os.Prelude.{
  ℕ, zero, suc, ◌+◌, ◌-◌, Bool, true, false, not, ◌&&◌, ◌||◌, Option, none, some, List, [], ◌∷◌,
  ◌++◌, ltb, leb, ◌==◌, if◌then◌else◌, update, has, without,
}
use mathlib.Core.List.{reverse}
use mini_os.Kernel.Task.{
  Ret, ok, err, einval, TaskState, task_running, Task, Kernel, nr_cpus, sched_time_slice, current,
  set_task, linked, is_running,
}

unfoldable pub enqueue_task_locked : Kernel → ℕ → ℕ → Kernel
enqueue_task_locked k t cpu = if linked k t then k else record k {
  task =
      update k.task t
        (record (k.task t) { state = task_running; time_slice = sched_time_slice; cpu = cpu });
  queue = update k.queue cpu (k.queue cpu ++ t ∷ []);
  nr_running = update k.nr_running cpu (k.nr_running cpu + 1);
}

unfoldable pub enqueue_task_cpu : Kernel → ℕ → ℕ → Kernel
unfolding enqueue_task_locked
enqueue_task_cpu k t cpu = if leb nr_cpus cpu then k else enqueue_task_locked k t cpu

unfoldable pub enqueue_task : Kernel → ℕ → Kernel
unfolding enqueue_task_cpu
enqueue_task k t =
    if leb nr_cpus (k.task t).cpu
    then enqueue_task_cpu (set_task k t (record (k.task t) { cpu = k.this_cpu })) t k.this_cpu
    else enqueue_task_cpu k t (k.task t).cpu

-- `list_del_init` unlinks the task from the queue that it is on, whichever that is.
abbrev pub unlink : Kernel → ℕ → ℕ → List ℕ
unlink k t = λ cpu. without t (k.queue cpu)

unfoldable pub dequeue_task_locked : Kernel → ℕ → ℕ → Kernel
dequeue_task_locked k cpu t = if not (linked k t) then k else record k {
  queue = unlink k t;
  nr_running = update k.nr_running cpu (k.nr_running cpu - 1);
}

unfoldable pub dequeue_task : Kernel → ℕ → Kernel
unfolding dequeue_task_locked
dequeue_task k t = if leb nr_cpus (k.task t).cpu then k else dequeue_task_locked k (k.task t).cpu t

unfoldable pub sched_block : Kernel → TaskState → Kernel
unfolding dequeue_task
sched_block k s =
    dequeue_task (set_task k (current k) (record (k.task (current k)) { state = s })) (current k)

unfoldable pub set_need_resched : Kernel → Kernel
set_need_resched k = set_task k (current k) (record (k.task (current k)) { need_resched = true })

unfoldable pub resched_cpu : Kernel → ℕ → Kernel
unfolding set_need_resched
resched_cpu k cpu =
    if leb nr_cpus cpu
    then k
    else if cpu == k.this_cpu
    then set_need_resched k
    else record k { doorbells = cpu ∷ k.doorbells }

unfoldable pub wake_up_process : Kernel → ℕ → Kernel
wake_up_process k t =
    if is_running (k.task t).state && linked k t
    then k
    else let k' = enqueue_task k t in resched_cpu k' (k'.task t).cpu

-- The tests that `migrate_task` makes before it takes the locks, and under them.
unfoldable pub can_migrate : Kernel → ℕ → Bool
can_migrate k t = is_running (k.task t).state && linked k t && not (t == k.curr (k.task t).cpu)

unfoldable pub migrate_task : Kernel → ℕ → ℕ → Ret × Kernel
unfolding can_migrate
migrate_task k t new_cpu =
    let old_cpu = (k.task t).cpu in
    if leb nr_cpus new_cpu
    then (err einval, k)
    else if leb nr_cpus old_cpu
    then (err einval, k)
    else if old_cpu == new_cpu
    then (ok 0, k)
    else if not (can_migrate k t)
    then (err einval, k)
    else (
      ok 0,
      resched_cpu
          (record k {
            task = update k.task t (record (k.task t) { cpu = new_cpu });
            queue = update (unlink k t) new_cpu (unlink k t new_cpu ++ t ∷ []);
            nr_running =
                update (update k.nr_running old_cpu (k.nr_running old_cpu - 1)) new_cpu
                  (k.nr_running new_cpu + 1);
          })
          new_cpu,
    )

-- The loop of `find_busiest_cpu` over the processors `cpus`.
unfoldable pub busiest_of : Kernel → ℕ → (max_load busiest : ℕ) → List ℕ → ℕ
busiest_of k this_cpu max_load busiest [] = busiest
busiest_of k this_cpu max_load busiest (cpu ∷ cpus) =
    let load = k.nr_running cpu in
    let better = not (cpu == this_cpu) && ltb max_load load in
    busiest_of k this_cpu (if better then load else max_load) (if better then cpu else busiest) cpus

abbrev pub all_cpus : List ℕ
all_cpus = 0 ∷ 1 ∷ 2 ∷ 3 ∷ []

unfoldable pub find_busiest_cpu : Kernel → ℕ → Option ℕ
unfolding busiest_of
find_busiest_cpu k this_cpu =
    let busiest = busiest_of k this_cpu (k.nr_running this_cpu + 1) this_cpu all_cpus in
    if busiest == this_cpu then none else some busiest

unfoldable pub first_migratable : Kernel → ℕ → List ℕ → Option ℕ
first_migratable k exclude [] = none
first_migratable k exclude (t ∷ ts) =
    if t == exclude || (k.task t).pid == 0 then first_migratable k exclude ts else some t

unfoldable pub pick_migratable_task : Kernel → ℕ → ℕ → Option ℕ
unfolding first_migratable
pick_migratable_task k cpu exclude =
    if leb (k.nr_running cpu) 1 then none else first_migratable k exclude (reverse (k.queue cpu))

pub pulled : Ret × Kernel → Bool × Kernel
pulled (ok n, k) = (n == 0, k)
pulled (err e, k) = (false, k)

pub pull_from : Kernel → ℕ → Option ℕ → Bool × Kernel
unfolding pulled
pull_from k this_cpu none = (false, k)
pull_from k this_cpu (some t) = pulled (migrate_task k t this_cpu)

pub pull_busiest : Kernel → ℕ → Option ℕ → Bool × Kernel
unfolding pull_from
pull_busiest k this_cpu none = (false, k)
pull_busiest k this_cpu (some busiest) =
    pull_from k this_cpu (pick_migratable_task k busiest (k.curr busiest))

unfoldable pub try_pull_task : Kernel → ℕ → Bool × Kernel
unfolding pull_busiest
try_pull_task k this_cpu =
    if leb nr_cpus this_cpu
    then (false, k)
    else pull_busiest k this_cpu (find_busiest_cpu k this_cpu)

-- What follows the first `t` of a list.
abbrev pub after : ℕ → List ℕ → List ℕ
after t [] = []
after t (x ∷ xs) = if t == x then xs else after t xs

abbrev pub first : List ℕ → List ℕ → Option ℕ
first (x ∷ xs) ys = some x
first [] (y ∷ ys) = some y
first [] [] = none

-- `prev` is linked, but on another queue: its successor is then taken from there, and at that
-- queue's end the code would read the queue's head as a task, which is `none` here.
pub pick_linked : Kernel → ℕ → ℕ → Option ℕ
pick_linked k cpu prev =
    if has prev (k.queue cpu)
    then first (after prev (k.queue cpu)) (k.queue cpu)
    else first (after prev (k.queue (k.task prev).cpu)) []

-- By the first task of the queue. The idle task is that of the executing processor.
pub pick_from : Kernel → ℕ → ℕ → Option ℕ → Option ℕ
pick_from k cpu prev none = some (k.idle k.this_cpu)
pick_from k cpu prev (some head) =
    if not (prev == k.idle k.this_cpu) && linked k prev then pick_linked k cpu prev else some head

unfoldable pub pick_next_task : Kernel → ℕ → ℕ → Option ℕ
unfolding pick_from
pick_next_task k cpu prev = pick_from k cpu prev (first (k.queue cpu) [])

-- The part of `context_switch` that concerns tasks and processors.
unfoldable pub context_switch : Kernel → ℕ → Kernel
context_switch k next = record k {
  task =
      update k.task next
        (record (k.task next) { time_slice = sched_time_slice; need_resched = false });
  curr = update k.curr k.this_cpu next;
}

pub switch_unless_same : Kernel → (prev idle : ℕ) → Option ℕ → Kernel
unfolding context_switch
switch_unless_same k prev idle none = k
switch_unless_same k prev idle (some next) =
    if next == prev
    then k
    else if not (next == idle) && not (k.task next).has_stack
    then k
    else context_switch k next

abbrev pub is : ℕ → Option ℕ → Bool
is t none = false
is t (some u) = u == t

abbrev pub is_empty : List ℕ → Bool
is_empty [] = true
is_empty (_ ∷ _) = false

-- `schedule` up to the moment when the next task runs.
unfoldable pub schedule : Kernel → Kernel
unfolding switch_unless_same
schedule k =
    let cpu = k.this_cpu in
    let prev = current k in
    let idle = k.idle cpu in
    let cleared = set_task k prev (record (k.task prev) { need_resched = false }) in
    let next = pick_next_task cleared cpu prev in
    let (got, after_pull) = try_pull_task cleared cpu in
    if is idle next && is_empty (k.queue cpu)
    then switch_unless_same after_pull prev idle
        (if got then pick_next_task after_pull cpu prev else next)
    else switch_unless_same cleared prev idle next
