-- ===== src/Kernel/Wait/Wake.antt =====
-- kernel/sched/wait.c: who is on a run queue after a wake-up.
use mini_os.Prelude.{
  ℕ, ◌≡◌, ◌⊎◌, ◌∙◌, true, false, ◌&&◌, Option, none, some, List, [], ◌∷◌, refl, ap, arith, leb,
  ◌==◌, has, distinct, has-without_self, Bool-cases, inl, inr,
}
use mathlib.Core.Path.{subst}
use mini_os.Kernel.Task.{
  task_running, task_sleeping, Kernel, nr_cpus, current, set_task, linked, is_sleeping, is_running,
}
use mini_os.Kernel.Sched.{
  enqueue_task_locked, enqueue_task_cpu, enqueue_task, dequeue_task_locked, dequeue_task,
  wake_up_process, resched_cpu, set_need_resched,
}
use mini_os.Kernel.Sched.Invariant.{set_task-RqValid}
use mini_os.Kernel.Sched.Queueing.{
  Queued, Unqueued, enqueue_task-Queued, dequeue_task-Unqueued, wake_up_process-Queued,
}
use mini_os.Kernel.Signal.Send.{OnCpu}
use mini_os.Kernel.Wait.{
  WaitQueue, remove_wait_queue, prepare_to_wait, finish_wait, wake_one, wake_entries, wake_up,
}
use mini_os.Kernel.Wait.Keep.{wake_one-OnCpu, wake_one-keeps, wake_entries-keeps}

-- Waking one task leaves the state of another alone.
state-enqueue_task_locked :
    (k : Kernel) (u cpu t : ℕ)
    → (t == u) ≡ false
    → ((enqueue_task_locked k u cpu).task t).state ≡ (k.task t).state
unfolding enqueue_task_locked
state-enqueue_task_locked k u cpu t n = elim (Bool-cases (linked k u)) [
  | inl e ↦ rw e refl
  | inr e ↦ rw (e, n) refl
]

state-enqueue_task :
    (k : Kernel) (u t : ℕ) → (t == u) ≡ false → ((enqueue_task k u).task t).state ≡ (k.task t).state
unfolding enqueue_task enqueue_task_cpu
state-enqueue_task k u t n = elim (Bool-cases (leb nr_cpus (k.task u).cpu)) [
  | inr near ↦ rw near (state-enqueue_task_locked k u (k.task u).cpu t n)
  | inl far ↦ elim (Bool-cases (leb nr_cpus k.this_cpu)) [
    | inl e ↦ rw (far, e, n) refl
    | inr e ↦
        rw (far, e)
          (state-enqueue_task_locked (set_task k u (record (k.task u) { cpu = k.this_cpu })) u
              k.this_cpu t n
            ∙ rw n refl)
  ]
]

state-resched_cpu : (k : Kernel) (cpu t : ℕ) → ((resched_cpu k cpu).task t).state ≡ (k.task t).state
unfolding resched_cpu set_need_resched
state-resched_cpu k cpu t = elim (Bool-cases (leb nr_cpus cpu)) [
  | inl far ↦ rw far refl
  | inr near ↦ elim (Bool-cases (cpu == k.this_cpu)) [
    | inr there ↦ rw (near, there) refl
    | inl here ↦ elim (Bool-cases (t == current k)) [
      | inr other ↦ rw (near, here, other) refl
      | inl me ↦
          let same : current k ≡ t = ground arith in
          rw (near, here, me) (ap (λ u. (k.task u).state) same)
    ]
  ]
]

state-wake_up_process :
    (k : Kernel) (u t : ℕ)
    → (t == u) ≡ false
    → ((wake_up_process k u).task t).state ≡ (k.task t).state
unfolding wake_up_process
state-wake_up_process k u t n = elim (Bool-cases (is_running (k.task u).state && linked k u)) [
  | inl on ↦ rw on refl
  | inr off ↦ rw off (
      state-resched_cpu (enqueue_task k u) ((enqueue_task k u).task u).cpu t
      ∙ state-enqueue_task k u t n)
]

-- A task that is queued or asleep is so after another is woken.
Runs : Kernel → ℕ → Type 0
Runs k t = Queued k t ⊎ (is_sleeping (k.task t).state ≡ true)

wake_one-Runs : (o : Option ℕ) {k : Kernel} (t : ℕ) → OnCpu k → Runs k t → Runs (wake_one o k) t
unfolding wake_one Runs
wake_one-Runs o t v (inl q) = inl (wake_one-keeps o t v.cpu q)
wake_one-Runs none t v (inr s) = inr s
wake_one-Runs (some u) {k} t v (inr s) = elim (Bool-cases (is_sleeping (k.task u).state)) [
  | inr e ↦ rw e (inr s)
  | inl e ↦ elim (Bool-cases (t == u)) [
    | inl same ↦
        let at : u ≡ t = ground arith in
        rw e (
          inl (
            subst (λ w. Queued (wake_up_process k u) w) at
              (wake_up_process-Queued u v.queues v.cpu)))
    | inr other ↦ rw e (inr (ap is_sleeping (state-wake_up_process k u t other) ∙ s))
  ]
]

-- The turn for its own entry queues it.
wake_one-Queued : {k : Kernel} (t : ℕ) → OnCpu k → Runs k t → Queued (wake_one (some t) k) t
unfolding wake_one Runs
wake_one-Queued {k} t v s = elim (Bool-cases (is_sleeping (k.task t).state)) [
  | inl e ↦ rw e (wake_up_process-Queued t v.queues v.cpu)
  | inr e ↦ rw e (elim s [ inl q ↦ q | inr asleep ↦ absurd (ground arith) ])
]

wake_entries-Queued :
    (waiter : ℕ → Option ℕ) (es : List ℕ) {k : Kernel} (e t : ℕ)
    → OnCpu k
    → has e es ≡ true
    → waiter e ≡ some t
    → Runs k t
    → Queued (wake_entries waiter es k) t
unfolding wake_entries
wake_entries-Queued waiter [] e t v h w s = absurd (ground arith)
wake_entries-Queued waiter (x ∷ es) {k} e t v h w s = elim (Bool-cases (e == x)) [
  | inl same ↦
      let at : x ≡ e = ground arith in
      let found : waiter x ≡ some t = ap waiter at ∙ w in
      rw found (wake_entries-keeps waiter es t (wake_one-OnCpu (some t) v) (wake_one-Queued t v s))
  | inr other ↦
      wake_entries-Queued waiter es e t (wake_one-OnCpu (waiter x) v) (ground arith) w
        (wake_one-Runs (waiter x) t v s)
]

-- With valid run queues, after wake_up every task that an entry of the wait queue stands for and
-- that was asleep or on a run queue is on a run queue, however many others are woken, and the run
-- queues are valid.
pub wake_up-Queued :
    (wq : WaitQueue) (k : Kernel) (e t : ℕ)
    → OnCpu k
    → has e wq.entries ≡ true
    → wq.waiter e ≡ some t
    → (linked k t ≡ true) ⊎ (is_sleeping (k.task t).state ≡ true)
    → Queued (wake_up wq k) t
unfolding wake_up Runs
wake_up-Queued wq k e t v h w s =
    wake_entries-Queued wq.waiter wq.entries e t v h w
      (elim s [ inl on ↦ inl (record { valid = v.queues; on = on }) | inr asleep ↦ inr asleep ])

dequeue_task-task : (k : Kernel) (t : ℕ) → (dequeue_task k t).task ≡ k.task
unfolding dequeue_task dequeue_task_locked
dequeue_task-task k t = ground arith

dequeue_task-this_cpu : (k : Kernel) (t : ℕ) → (dequeue_task k t).this_cpu ≡ k.this_cpu
unfolding dequeue_task dequeue_task_locked
dequeue_task-this_cpu k t = ground arith

-- With valid run queues, prepare_to_wait takes the calling task, whose entry it is, off the run
-- queues, and a wake_up of the queue that follows puts it on one, so a wake-up after
-- prepare_to_wait is not lost.
pub prepare_to_wait-wake_up :
    (wq : WaitQueue) (e : ℕ) (k : Kernel)
    → OnCpu k
    → wq.waiter e ≡ some (current k)
    → let (wq', k') = prepare_to_wait wq e k in
      Unqueued k' (current k) × Queued (wake_up wq' k') (current k)
unfolding prepare_to_wait
prepare_to_wait-wake_up wq e k v w =
    (out, wake_up-Queued wq' k' e me on_cpu listed waits (inr asleep))
  where
    me : ℕ
    me = current k

    slept : Kernel
    slept = set_task k me (record (k.task me) { state = task_sleeping })

    k' : Kernel
    k' = dequeue_task slept me

    wq' : WaitQueue
    wq' = (prepare_to_wait wq e k).0

    out : Unqueued k' me
    out =
        dequeue_task-Unqueued me (
          set_task-RqValid me (record (k.task me) { state = task_sleeping }) v.queues
            (ground arith))

    on_cpu : OnCpu k'
    on_cpu = record {
      queues = out.valid;
      cpu = omega (arith, dequeue_task-this_cpu slept me, v.cpu);
    }

    listed : has e wq'.entries ≡ true
    listed = ground arith

    waits : wq'.waiter e ≡ some me
    waits = ground (arith, w)

    asleep : is_sleeping (k'.task me).state ≡ true
    asleep = rw (dequeue_task-task slept me) (ground arith)

-- After finish_wait the calling task is on a run queue, and its entry is off the wait queue.
finish_wait-Queued :
    (wq : WaitQueue) (e : ℕ) (k : Kernel)
    → OnCpu k
    → distinct wq.entries ≡ true
    → let (wq', k') = finish_wait wq e k in Queued k' (current k) × (has e wq'.entries ≡ false)
unfolding finish_wait remove_wait_queue
finish_wait-Queued wq e k v d = elim (Bool-cases (linked k (current k))) [
  | inr off ↦
      rw off (enqueue_task-Queued (current k) v.queues v.cpu, has-without_self e wq.entries d)
  | inl on ↦ rw on (
    record {
      valid =
          set_task-RqValid (current k) (record (k.task (current k)) { state = task_running })
            v.queues (ground arith);
      on = on;
    },
    has-without_self e wq.entries d,
  )
]
