-- ===== src/Kernel/Sched/Migrate.antt =====
-- `migrate_task` of kernel/sched/core.c: a queued task changes its processor.
use mathlib.Core.Bool.{true≢false}
use mini_os.Prelude.{
  List, ap, sym, ◌∙◌, ℕ, ◌+◌, ◌-◌, ◌<◌, ◌≡◌, ◌≢◌, ◌⊎◌, inl, inr, refl, true, false, [], ◌∷◌, ◌++◌,
  arith, leb, ◌==◌, Bool-cases, if◌then◌else◌, update, has, without, has-append,
  distinct-append_one, has-without_self, has_of_has-without, distinct-without, length-without,
  length-append,
}
use mini_os.Kernel.Task.{
  ok, err, einval, Kernel, nr_cpus, current, linked, is_running, TaskState, task_running, task_idle,
  task_sleeping, task_stopped, task_zombie, task_dead,
}
use mini_os.Kernel.Sched.{unlink, can_migrate, migrate_task, resched_cpu, set_need_resched}
use mini_os.Kernel.Sched.Invariant.{
  RqValid, unlinked_count, has_of_linked, linked_of_has, set_task-RqValid,
}

-- The state that `migrate_task` leaves under the locks.
moved : Kernel → ℕ → ℕ → Kernel
moved k t new_cpu = record k {
  task = update k.task t (record (k.task t) { cpu = new_cpu });
  queue = update (unlink k t) new_cpu (unlink k t new_cpu ++ t ∷ []);
  nr_running =
      update (update k.nr_running (k.task t).cpu (k.nr_running (k.task t).cpu - 1)) new_cpu
        (k.nr_running new_cpu + 1);
}

without-absent : (t : ℕ) (xs : List ℕ) → has t xs ≡ false → without t xs ≡ xs
without-absent t [] h = refl
without-absent t (x ∷ xs) h = ground (arith, ap (λ ys. x ∷ ys) (without-absent t xs (ground arith)))

-- What a migration of `t` to another processor does.
pub record Migrated (k : Kernel) (t new_cpu : ℕ) (k' : Kernel) : Type 0 where
  pub valid : RqValid k'
  pub now : (k'.task t).cpu ≡ new_cpu
  -- it leaves the queue it was on, and comes last on the other
  pub here : k'.queue new_cpu ≡ k.queue new_cpu ++ t ∷ []
  pub away : (c : ℕ) → c ≢ new_cpu → k'.queue c ≡ without t (k.queue c)
  pub taken : k'.nr_running (k.task t).cpu + 1 ≡ k.nr_running (k.task t).cpu
  pub given : k'.nr_running new_cpu ≡ k.nr_running new_cpu + 1
  pub others : (c : ℕ) → c ≢ new_cpu → c ≢ (k.task t).cpu → k'.nr_running c ≡ k.nr_running c

module _ {k : Kernel} (t new_cpu : ℕ) (v : RqValid k) (room : new_cpu < nr_cpus)
    (queued : linked k t ≡ true) (elsewhere : ((k.task t).cpu == new_cpu) ≡ false) where
  moved-RqValid : RqValid (moved k t new_cpu)
  unfolding moved
  moved-RqValid = record {
    counts = λ c m. ground (
      arith,
      unlinked_count t v queued c m,
      length-append (without t (k.queue new_cpu)) (t ∷ []),
    );
    once = λ c. ground (
      arith,
      distinct-without t (k.queue c) (v.once c),
      distinct-without t (k.queue new_cpu) (v.once new_cpu),
      distinct-append_one t (without t (k.queue new_cpu)),
      has-without_self t (k.queue new_cpu) (v.once new_cpu),
    );
    home = λ c u h. ground (
      arith,
      v.home c u,
      has_of_has-without t u (k.queue c),
      has-append u (without t (k.queue new_cpu)) (t ∷ []),
      has-without_self t (k.queue c) (v.once c),
    );
  }

  taken_lem : 0 < k.nr_running (k.task t).cpu
  taken_lem =
      let (l, h) = has_of_linked v t queued in
      omega (arith, v.counts (k.task t).cpu l, length-without t (k.queue (k.task t).cpu) h)

  absent : has t (k.queue new_cpu) ≡ false
  absent = elim (Bool-cases (has t (k.queue new_cpu))) [
    | inl h ↦ absurd (ground (arith, v.home new_cpu t h))
    | inr h ↦ h
  ]

  moved-Migrated : Migrated k t new_cpu (moved k t new_cpu)
  unfolding moved
  moved-Migrated = record {
    valid = moved-RqValid;
    now = ground arith;
    here = ground (arith, ap (λ q. q ++ t ∷ []) (without-absent t (k.queue new_cpu) absent));
    away = λ c n. ground arith;
    taken = ground (arith, taken_lem);
    given = ground arith;
    others = λ c n m. ground arith;
  }

resched_cpu-Migrated :
    {k k' : Kernel} (t new_cpu cpu : ℕ)
    → Migrated k t new_cpu k'
    → Migrated k t new_cpu (resched_cpu k' cpu)
unfolding resched_cpu set_need_resched
resched_cpu-Migrated {k' = k'} t new_cpu cpu g = elim (Bool-cases (leb nr_cpus cpu)) [
  | inl far ↦ rw far g
  | inr near ↦ rw near (elim (Bool-cases (cpu == k'.this_cpu)) [
    | inl here ↦ rw here (record {
      valid =
          set_task-RqValid (current k') (record (k'.task (current k')) { need_resched = true })
            g.valid (ground arith);
      now = ground (arith, g.now);
      here = g.here;
      away = g.away;
      taken = g.taken;
      given = g.given;
      others = g.others;
    })
    | inr there ↦ rw there (record {
      valid = record { counts = g.valid.counts; once = g.valid.once; home = g.valid.home };
      now = g.now;
      here = g.here;
      away = g.away;
      taken = g.taken;
      given = g.given;
      others = g.others;
    })
  ])
]

migrate_task-moved :
    (k : Kernel) (t new_cpu : ℕ)
    → leb nr_cpus new_cpu ≡ false
    → leb nr_cpus (k.task t).cpu ≡ false
    → ((k.task t).cpu == new_cpu) ≡ false
    → migrate_task k t new_cpu ≡ (
        if can_migrate k t
        then (ok 0, resched_cpu (moved k t new_cpu) new_cpu)
        else (err einval, k))
unfolding migrate_task moved
migrate_task-moved k t new_cpu near old other = rw (near, old, other) (ground arith)

linked_of_can_migrate : (k : Kernel) (t : ℕ) → can_migrate k t ≡ true → linked k t ≡ true
unfolding can_migrate
linked_of_can_migrate k t e = ground arith

-- The task is runnable and waits on its own processor's queue, and that one does not execute it.
abbrev pub IsEligible : Kernel → ℕ → Type 0
IsEligible k t =
    ((k.task t).state ≡ task_running)
    × (has t (k.queue (k.task t).cpu) ≡ true)
    × (k.curr (k.task t).cpu ≢ t)

running_state : (state : TaskState) → is_running state ≡ true → state ≡ task_running
running_state task_running h = refl
running_state task_idle h = absurd (ground arith)
running_state task_sleeping h = absurd (ground arith)
running_state task_stopped h = absurd (ground arith)
running_state task_zombie h = absurd (ground arith)
running_state task_dead h = absurd (ground arith)

can_migrate-IsEligible : {k : Kernel} (t : ℕ) → RqValid k → can_migrate k t ≡ true → IsEligible k t
unfolding can_migrate
can_migrate-IsEligible {k} t v e = (
  running_state (k.task t).state (ground arith),
  (has_of_linked v t (ground arith)).1,
  ground arith,
)

IsEligible-can_migrate : {k : Kernel} (t : ℕ) → RqValid k → IsEligible k t → can_migrate k t ≡ true
unfolding can_migrate
IsEligible-can_migrate {k} t v (state, queued, apart) =
    let on : linked k t ≡ true = linked_of_has v t (k.task t).cpu queued in
    let runs : is_running (k.task t).state ≡ true = ap is_running state in
    let idle : (t == k.curr (k.task t).cpu) ≡ false = ground arith in rw (runs, on, idle) refl

-- With valid run queues, a migration between two different processors of the four takes a task that
-- is runnable, waits on its processor's queue and is not executed there, off that queue, puts it at
-- the end of the other one and counts both, with the run queues valid; any other task is refused
-- with EINVAL, and nothing changes.
pub migrate_task-Migrated :
    {k : Kernel} (t new_cpu : ℕ)
    → RqValid k
    → new_cpu < nr_cpus
    → (k.task t).cpu < nr_cpus
    → (k.task t).cpu ≢ new_cpu
    → (IsEligible k t
        × ((migrate_task k t new_cpu).0 ≡ ok 0)
        × Migrated k t new_cpu (migrate_task k t new_cpu).1)
      ⊎ (¬ IsEligible k t × (migrate_task k t new_cpu ≡ (err einval, k)))
migrate_task-Migrated {k} t new_cpu v room old other =
    let apart : ((k.task t).cpu == new_cpu) ≡ false = ground arith in
    rw (migrate_task-moved k t new_cpu (ground arith) (ground arith) apart)
      (elim (Bool-cases (can_migrate k t)) [
        | inr bad ↦
            rw bad
              (inr (λ fit. absurd (true≢false (sym (IsEligible-can_migrate t v fit) ∙ bad)), refl))
        | inl good ↦ rw good (
            inl (
              can_migrate-IsEligible t v good,
              refl,
              resched_cpu-Migrated t new_cpu new_cpu
                  (moved-Migrated t new_cpu v room (linked_of_can_migrate k t good) apart),
            ))
      ])
