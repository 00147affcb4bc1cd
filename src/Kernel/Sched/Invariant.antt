-- ===== src/Kernel/Sched/Invariant.antt =====
-- The invariant of the run queues of kernel/sched/core.c, under the queue operations.
use mini_os.Prelude.{
  ℕ, zero, suc, ◌-◌, ◌<◌, ◌≡◌, inl, inr, true, false, List, [], ◌∷◌, arith, ◌==◌, Bool-cases,
  update, length, has, without, distinct, without_absent, has-append, distinct-append_one,
  has_of_has-without, distinct-without, length-without, length-append,
}
use mini_os.Kernel.Task.{Task, Kernel, nr_cpus, set_task, linked, in_queues}
use mini_os.Kernel.Sched.{enqueue_task_locked, dequeue_task_locked}

-- Every queue's count is its length, no task is queued twice, and a queued task records the
-- processor that it is queued on.
pub record RqValid (k : Kernel) : Type 0 where
  pub counts : (c : ℕ) → c < nr_cpus → k.nr_running c ≡ length (k.queue c)
  pub once : (c : ℕ) → distinct (k.queue c) ≡ true
  pub home : (c t : ℕ) → has t (k.queue c) ≡ true → ((k.task t).cpu ≡ c) × (c < nr_cpus)

in_queues-true :
    (n : ℕ) (q : ℕ → List ℕ) (t : ℕ)
    → in_queues n q t ≡ true
    → (c : ℕ) × (c < n) × (has t (q c) ≡ true)
in_queues-true zero q t e = absurd (ground arith)
in_queues-true (suc n) q t e = elim (Bool-cases (has t (q n))) [
  | inl here ↦ (n, omega arith, here)
  | inr away ↦ let (c, l, h) = in_queues-true n q t (ground arith) in (c, omega arith, h)
]

in_queues_of_has :
    (n : ℕ) (q : ℕ → List ℕ) (t c : ℕ) → c < n → has t (q c) ≡ true → in_queues n q t ≡ true
in_queues_of_has zero q t c l h = absurd (omega arith)
in_queues_of_has (suc n) q t c l h = elim (Bool-cases (c == n)) [
  | inl here ↦ ground arith
  | inr away ↦ ground (arith, in_queues_of_has n q t c)
]

module _ {k : Kernel} (v : RqValid k) (t : ℕ) where
  -- A linked task is on the queue of its processor, and on no other.
  pub has_of_linked :
      linked k t ≡ true → ((k.task t).cpu < nr_cpus) × (has t (k.queue (k.task t).cpu) ≡ true)
  has_of_linked e =
      let (c, l, h) = in_queues-true nr_cpus k.queue t e in
      let at : (k.task t).cpu ≡ c = (v.home c t h).0 in rw at (l, h)

  pub linked_of_has : (c : ℕ) → has t (k.queue c) ≡ true → linked k t ≡ true
  linked_of_has c h = in_queues_of_has nr_cpus k.queue t c (v.home c t h).1 h

  pub away : (c : ℕ) → (c == (k.task t).cpu) ≡ false → has t (k.queue c) ≡ false
  away c n = elim (Bool-cases (has t (k.queue c))) [
    | inr no_entry ↦ no_entry
    | inl entry ↦ absurd (ground (arith, v.home c t entry))
  ]

  pub absent : linked k t ≡ false → (c : ℕ) → has t (k.queue c) ≡ false
  absent n c = elim (Bool-cases (has t (k.queue c))) [
    | inr no_entry ↦ no_entry
    | inl entry ↦ absurd (ground (arith, linked_of_has c entry))
  ]

-- A change of a task that leaves its processor alone does not bear on the queues.
pub set_task-RqValid :
    {k : Kernel} (t : ℕ) (r : Task) → RqValid k → r.cpu ≡ (k.task t).cpu → RqValid (set_task k t r)
set_task-RqValid t r v same = record {
  counts = v.counts;
  once = v.once;
  home = λ c u h. ground (arith, v.home c u h);
}

pub enqueue_task_locked-RqValid :
    {k : Kernel} (t cpu : ℕ) → RqValid k → cpu < nr_cpus → RqValid (enqueue_task_locked k t cpu)
unfolding enqueue_task_locked
enqueue_task_locked-RqValid {k} t cpu v l = elim (Bool-cases (linked k t)) [
  | inl queued ↦ rw queued v
  | inr out ↦ rw out (record {
    counts = λ c m. ground (arith, v.counts c m, length-append (k.queue cpu) (t ∷ []));
    once = λ c.
        ground
          (arith, v.once c, v.once cpu, distinct-append_one t (k.queue cpu), absent v t out cpu);
    home =
        λ c u h. ground (arith, v.home c u, has-append u (k.queue cpu) (t ∷ []), absent v t out c);
  })
]

-- What is left of a count once a linked task is off its queue.
pub unlinked_count :
    {k : Kernel} (t : ℕ)
    → RqValid k
    → linked k t ≡ true
    → (c : ℕ) → c < nr_cpus
    → update k.nr_running (k.task t).cpu (k.nr_running (k.task t).cpu - 1) c
      ≡ length (without t (k.queue c))
unlinked_count {k} t v queued c m = elim (Bool-cases (c == (k.task t).cpu)) [
  | inl here ↦
      let e : (k.task t).cpu ≡ c = ground arith in
      ground (arith, v.counts c m, length-without t (k.queue c), has_of_linked v t queued)
  | inr there ↦ ground (arith, v.counts c m, without_absent t (k.queue c), away v t c there)
]

pub dequeue_task_locked-RqValid :
    {k : Kernel} (t : ℕ) → RqValid k → RqValid (dequeue_task_locked k (k.task t).cpu t)
unfolding dequeue_task_locked
dequeue_task_locked-RqValid {k} t v = elim (Bool-cases (linked k t)) [
  | inr out ↦ rw out v
  | inl queued ↦ rw queued (record {
    counts = unlinked_count t v queued;
    once = λ c. distinct-without t (k.queue c) (v.once c);
    home = λ c u h. v.home c u (has_of_has-without t u (k.queue c) h);
  })
]
