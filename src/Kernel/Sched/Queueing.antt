-- ===== src/Kernel/Sched/Queueing.antt =====
-- Queueing, blocking and waking in kernel/sched/core.c and kernel/fork.c.
use mini_os.Prelude.{
  ℕ, ◌<◌, ◌≡◌, inl, inr, true, false, ◌&&◌, [], ◌∷◌, arith, leb, ◌==◌, Bool-cases, has, without,
  has-append, has-without_self,
}
use mini_os.Kernel.Task.{TaskState, Task, Kernel, nr_cpus, current, set_task, linked, is_running}
use mini_os.Kernel.Sched.{
  enqueue_task_locked, enqueue_task_cpu, enqueue_task, dequeue_task_locked, dequeue_task,
  sched_block, resched_cpu, set_need_resched, wake_up_process,
}
use mini_os.Kernel.Sched.Invariant.{
  RqValid, has_of_linked, linked_of_has, absent, set_task-RqValid, enqueue_task_locked-RqValid,
  dequeue_task_locked-RqValid,
}

-- The run queues are valid, and task `t` is queued.
pub record Queued (k : Kernel) (t : ℕ) : Type 0 where
  pub valid : RqValid k
  pub on : linked k t ≡ true

-- The run queues are valid, and task `t` is not queued.
pub record Unqueued (k : Kernel) (t : ℕ) : Type 0 where
  pub valid : RqValid k
  pub off : linked k t ≡ false

enqueued_has :
    (k : Kernel) (t cpu : ℕ)
    → linked k t ≡ false
    → has t ((enqueue_task_locked k t cpu).queue cpu) ≡ true
unfolding enqueue_task_locked
enqueued_has k t cpu out = rw out (ground (arith, has-append t (k.queue cpu) (t ∷ [])))

enqueued_same : (k : Kernel) (t cpu : ℕ) → linked k t ≡ true → enqueue_task_locked k t cpu ≡ k
unfolding enqueue_task_locked
enqueued_same k t cpu e = rw e

enqueue_task_locked-Queued :
    {k : Kernel} (t cpu : ℕ) → RqValid k → cpu < nr_cpus → Queued (enqueue_task_locked k t cpu) t
enqueue_task_locked-Queued {k} t cpu v l = elim (Bool-cases (linked k t)) [
  | inl e ↦ rw (enqueued_same k t cpu e) (record { valid = v; on = e })
  | inr e ↦
      let w = enqueue_task_locked-RqValid t cpu v l in
      record { valid = w; on = linked_of_has w t cpu (enqueued_has k t cpu e) }
]

-- A task that records no processor is not queued.
pub unplaced :
    {k : Kernel} (t : ℕ) → RqValid k → leb nr_cpus (k.task t).cpu ≡ true → linked k t ≡ false
unplaced {k} t v far = elim (Bool-cases (linked k t)) [
  | inr e ↦ e
  | inl e ↦ absurd (ground (arith, has_of_linked v t e))
]

pub move_unplaced :
    {k : Kernel} (t : ℕ) (r : Task) → RqValid k → linked k t ≡ false → RqValid (set_task k t r)
move_unplaced t r v out = record {
  counts = v.counts;
  once = v.once;
  home = λ c u h. ground (arith, v.home c u h, absent v t out c);
}

-- With valid run queues and one of the four processors executing, a task that is enqueued ends up
-- queued, whatever its state, and the queues stay valid.
pub enqueue_task-Queued :
    {k : Kernel} (t : ℕ) → RqValid k → k.this_cpu < nr_cpus → Queued (enqueue_task k t) t
unfolding enqueue_task enqueue_task_cpu
enqueue_task-Queued {k} t v here = elim (Bool-cases (leb nr_cpus (k.task t).cpu)) [
  | inl far ↦
      rw (far, ltb_here)
        (enqueue_task_locked-Queued t k.this_cpu
          (move_unplaced t (record (k.task t) { cpu = k.this_cpu }) v (unplaced t v far)) here)
  | inr near ↦ rw near (enqueue_task_locked-Queued t (k.task t).cpu v (ground arith))
]
  where
    ltb_here : leb nr_cpus k.this_cpu ≡ false
    ltb_here = ground arith

dequeued_absent :
    {k : Kernel} (t : ℕ) → RqValid k → linked (dequeue_task_locked k (k.task t).cpu t) t ≡ false
unfolding dequeue_task_locked
dequeued_absent {k} t v = elim (Bool-cases (linked k t)) [
  | inr e ↦ rw (e, e)
  | inl e ↦ rw e (ground (arith, gone 0, gone 1, gone 2, gone 3))
]
  where
    gone : (c : ℕ) → has t (without t (k.queue c)) ≡ false
    gone c = has-without_self t (k.queue c) (v.once c)

-- With valid run queues, a task that is dequeued is on no queue, and the queues stay valid.
pub dequeue_task-Unqueued : {k : Kernel} (t : ℕ) → RqValid k → Unqueued (dequeue_task k t) t
unfolding dequeue_task
dequeue_task-Unqueued {k} t v = elim (Bool-cases (leb nr_cpus (k.task t).cpu)) [
  | inl far ↦ rw far (record { valid = v; off = unplaced t v far })
  | inr near ↦
      rw near (record { valid = dequeue_task_locked-RqValid t v; off = dequeued_absent t v })
]

-- With valid run queues, a task that blocks leaves the run queues, whatever state it blocks in, and
-- they stay valid.
pub sched_block-Unqueued :
    {k : Kernel} (s : TaskState) → RqValid k → Unqueued (sched_block k s) (current k)
unfolding sched_block
sched_block-Unqueued {k} s v =
    dequeue_task-Unqueued (current k)
      (set_task-RqValid (current k) (record (k.task (current k)) { state = s }) v (ground arith))

pub resched_cpu-Queued : {k : Kernel} (cpu t : ℕ) → Queued k t → Queued (resched_cpu k cpu) t
unfolding resched_cpu set_need_resched
resched_cpu-Queued {k} cpu t q = elim (Bool-cases (leb nr_cpus cpu)) [
  | inl far ↦ rw far q
  | inr near ↦ rw near (elim (Bool-cases (cpu == k.this_cpu)) [
    | inl here ↦ rw here (record {
      valid =
          set_task-RqValid (current k) (record (k.task (current k)) { need_resched = true }) q.valid
            (ground arith);
      on = q.on;
    })
    | inr there ↦ rw there (record {
      valid = record { counts = q.valid.counts; once = q.valid.once; home = q.valid.home };
      on = q.on;
    })
  ])
]

-- With valid run queues and one of the four processors executing, a task that is woken ends up
-- queued, whether or not it was, and the queues stay valid.
pub wake_up_process-Queued :
    {k : Kernel} (t : ℕ) → RqValid k → k.this_cpu < nr_cpus → Queued (wake_up_process k t) t
unfolding wake_up_process
wake_up_process-Queued {k} t v here =
    elim (Bool-cases (is_running (k.task t).state && linked k t)) [
      | inl on ↦ rw on (record { valid = v; on = ground arith })
      | inr off ↦
          rw off
            (resched_cpu-Queued ((enqueue_task k t).task t).cpu t (enqueue_task-Queued t v here))
    ]
