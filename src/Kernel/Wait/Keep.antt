-- ===== src/Kernel/Wait/Keep.antt =====
-- kernel/sched/wait.c: waking one task leaves the others on their run queues.
use mini_os.Prelude.{
  ℕ, ◌<◌, ◌≡◌, ◌∙◌, true, false, ◌&&◌, ◌||◌, Option, none, some, List, [], ◌∷◌, sym, ap, arith, leb,
  ◌==◌, has, has-append, Bool-cases, inl, inr,
}
use mini_os.Kernel.Task.{Kernel, nr_cpus, set_task, linked, is_sleeping, is_running}
use mini_os.Kernel.Sched.{enqueue_task_locked, enqueue_task_cpu, enqueue_task, wake_up_process}
use mini_os.Kernel.Sched.Invariant.{has_of_linked, linked_of_has, enqueue_task_locked-RqValid}
use mini_os.Kernel.Sched.Queueing.{Queued, unplaced, move_unplaced, resched_cpu-Queued}
use mini_os.Kernel.Signal.Send.{OnCpu, wake_up_process-OnCpu}
use mini_os.Kernel.Wait.{WaitQueue, wake_one, wake_entries, wake_up}

has-enqueue_task_locked :
    (k : Kernel) (u cpu t c : ℕ)
    → has t (k.queue c) ≡ true
    → has t ((enqueue_task_locked k u cpu).queue c) ≡ true
unfolding enqueue_task_locked
has-enqueue_task_locked k u cpu t c h = elim (Bool-cases (linked k u)) [
  | inl e ↦ rw e h
  | inr e ↦ elim (Bool-cases (c == cpu)) [
    | inr f ↦ rw (e, f) h
    | inl f ↦
        let same : c ≡ cpu = ground arith in
        rw (e, f)
          (has-append t (k.queue cpu) (u ∷ [])
            ∙ ap (λ b. b || has t (u ∷ [])) (ap (λ i. has t (k.queue i)) (sym same) ∙ h))
  ]
]

-- Queueing another task leaves a task queued.
enqueue_task_locked-keeps :
    {k : Kernel} (u cpu t : ℕ) → cpu < nr_cpus → Queued k t → Queued (enqueue_task_locked k u cpu) t
enqueue_task_locked-keeps {k} u cpu t l q =
    let v = enqueue_task_locked-RqValid u cpu q.valid l in
    let c = (k.task t).cpu in
    record {
      valid = v;
      on =
          linked_of_has v t c
            (has-enqueue_task_locked k u cpu t c (has_of_linked q.valid t q.on).1);
    }

pub enqueue_task-keeps :
    {k : Kernel} (u t : ℕ) → k.this_cpu < nr_cpus → Queued k t → Queued (enqueue_task k u) t
unfolding enqueue_task enqueue_task_cpu
enqueue_task-keeps {k} u t here q = elim (Bool-cases (leb nr_cpus (k.task u).cpu)) [
  | inl far ↦
      let moved = record (k.task u) { cpu = k.this_cpu } in
      let set : Queued (set_task k u moved) t = record {
        valid = move_unplaced u moved q.valid (unplaced u q.valid far);
        on = q.on;
      } in
      rw (far, ltb_here) (enqueue_task_locked-keeps u k.this_cpu t here set)
  | inr near ↦ rw near (enqueue_task_locked-keeps u (k.task u).cpu t (ground arith) q)
]
  where
    ltb_here : leb nr_cpus k.this_cpu ≡ false
    ltb_here = ground arith

pub wake_up_process-keeps :
    {k : Kernel} (u t : ℕ) → k.this_cpu < nr_cpus → Queued k t → Queued (wake_up_process k u) t
unfolding wake_up_process
wake_up_process-keeps {k} u t here q =
    elim (Bool-cases (is_running (k.task u).state && linked k u)) [
      | inl on ↦ rw on q
      | inr off ↦
          rw off
            (resched_cpu-Queued ((enqueue_task k u).task u).cpu t (enqueue_task-keeps u t here q))
    ]

pub wake_one-OnCpu : (o : Option ℕ) {k : Kernel} → OnCpu k → OnCpu (wake_one o k)
unfolding wake_one
wake_one-OnCpu none v = v
wake_one-OnCpu (some t) {k} v = elim (Bool-cases (is_sleeping (k.task t).state)) [
  | inl e ↦ rw e (wake_up_process-OnCpu t v)
  | inr e ↦ rw e v
]

pub wake_one-keeps :
    (o : Option ℕ) {k : Kernel} (t : ℕ)
    → k.this_cpu < nr_cpus
    → Queued k t
    → Queued (wake_one o k) t
unfolding wake_one
wake_one-keeps none t here q = q
wake_one-keeps (some u) {k} t here q = elim (Bool-cases (is_sleeping (k.task u).state)) [
  | inl e ↦ rw e (wake_up_process-keeps u t here q)
  | inr e ↦ rw e q
]

pub wake_entries-keeps :
    (waiter : ℕ → Option ℕ) (es : List ℕ) {k : Kernel} (t : ℕ)
    → OnCpu k
    → Queued k t
    → Queued (wake_entries waiter es k) t
unfolding wake_entries
wake_entries-keeps waiter [] t v q = q
wake_entries-keeps waiter (e ∷ es) t v q =
    wake_entries-keeps waiter es t (wake_one-OnCpu (waiter e) v)
      (wake_one-keeps (waiter e) t v.cpu q)

wake_entries-OnCpu :
    (waiter : ℕ → Option ℕ) (es : List ℕ) {k : Kernel} → OnCpu k → OnCpu (wake_entries waiter es k)
unfolding wake_entries
wake_entries-OnCpu waiter [] v = v
wake_entries-OnCpu waiter (e ∷ es) v = wake_entries-OnCpu waiter es (wake_one-OnCpu (waiter e) v)

pub wake_up-OnCpu : (wq : WaitQueue) {k : Kernel} → OnCpu k → OnCpu (wake_up wq k)
unfolding wake_up
wake_up-OnCpu wq v = wake_entries-OnCpu wq.waiter wq.entries v
