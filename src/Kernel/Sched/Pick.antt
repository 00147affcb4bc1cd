-- ===== src/Kernel/Sched/Pick.antt =====
-- `pick_next_task` and `schedule` of kernel/sched/core.c: round robin.
use mini_os.Prelude.{
  ℕ, ◌<◌, ◌≡◌, ◌≢◌, ◌⊎◌, inl, inr, refl, ap, ◌∙◌, Bool, true, false, not, ◌&&◌, ◌||◌, Option, none,
  some, List, [], ◌∷◌, ◌++◌, arith, ◌==◌, Bool-cases, has, distinct, has-append,
}
use mini_os.Kernel.Task.{Kernel, nr_cpus, current, set_task, linked}
use mini_os.Kernel.Sched.{
  after, first, is, is_empty, pick_linked, pick_next_task, context_switch, switch_unless_same,
  schedule, try_pull_task,
}
use mini_os.Kernel.Sched.Invariant.{RqValid, has_of_linked, linked_of_has, set_task-RqValid}
use mini_os.Kernel.Sched.Balance.{PullOutcome, try_pull_task-PullOutcome}

after-append :
    (t : ℕ) (xs ys : List ℕ) → distinct (xs ++ t ∷ ys) ≡ true → after t (xs ++ t ∷ ys) ≡ ys
after-append t [] ys d = ground arith
after-append t (x ∷ xs) ys d = ground (arith, after-append t xs ys, has-append x xs (t ∷ ys))

first-rotate : (t : ℕ) (xs ys : List ℕ) → first ys (xs ++ t ∷ ys) ≡ first (ys ++ xs ++ t ∷ []) []
first-rotate t [] [] = refl
first-rotate t (x ∷ xs) [] = refl
first-rotate t xs (y ∷ ys) = refl

first-cons : (t : ℕ) (xs ys : List ℕ) → (h : ℕ) × (first (xs ++ t ∷ ys) [] ≡ some h)
first-cons t [] ys = (t, refl)
first-cons t (x ∷ xs) ys = (x, refl)

pick_linked_on :
    (k : Kernel) (cpu prev : ℕ) (q : List ℕ)
    → k.queue cpu ≡ q
    → has prev q ≡ true
    → pick_linked k cpu prev ≡ first (after prev q) q
unfolding pick_linked
pick_linked_on k cpu prev q e on = rw (e, on)

-- With valid run queues, where the executing processor's queue holds a task that is not its idle
-- task, the choice after that task is the next of the queue, and after the last one the first: the
-- front of the queue turned round to just behind that task.
pub pick_next_task-rotates :
    {k : Kernel} (prev : ℕ) (xs ys : List ℕ)
    → RqValid k
    → k.this_cpu < nr_cpus
    → k.queue k.this_cpu ≡ xs ++ prev ∷ ys
    → prev ≢ k.idle k.this_cpu
    → pick_next_task k k.this_cpu prev ≡ first (ys ++ xs ++ prev ∷ []) []
unfolding pick_next_task
pick_next_task-rotates {k} prev xs ys v room e n =
    let (h, f) = first-cons prev xs ys in
    let on : has prev (xs ++ prev ∷ ys) ≡ true = ground (arith, has-append prev xs (prev ∷ ys)) in
    let active : (prev == k.idle k.this_cpu) ≡ false = ground arith in
    let queued : linked k prev ≡ true = linked_of_has v prev k.this_cpu (rw e on) in
    let d : distinct (xs ++ prev ∷ ys) ≡ true = rw e at (v.once k.this_cpu) in
    rw (e, f, active, queued)
      (pick_linked_on k k.this_cpu prev (xs ++ prev ∷ ys) e on
        ∙ rw (after-append prev xs ys d) (first-rotate prev xs ys))

-- What `pick_next_task` may choose for processor `cpu`.
abbrev pub Chosen : Kernel → ℕ → ℕ → Type 0
Chosen k cpu t = ((k.queue cpu ≡ []) × (t ≡ k.idle k.this_cpu)) ⊎ (has t (k.queue cpu) ≡ true)

has-after : (p t : ℕ) (xs : List ℕ) → has t (after p xs) ≡ true → has t xs ≡ true
has-after p t [] h = h
has-after p t (x ∷ xs) h = ground (arith, has-after p t xs)

first-some :
    (x : ℕ) (ys xs : List ℕ)
    → (t : ℕ) × (first ys (x ∷ xs) ≡ some t) × ((has t ys || has t (x ∷ xs)) ≡ true)
first-some x [] xs = (x, refl, ground arith)
first-some x (y ∷ ys) xs = (y, refl, ground arith)

-- With valid run queues, and the previous task at home on the processor if it is queued, the choice
-- is a task of the processor's queue, or the idle task where the queue is empty; the head of a
-- queue is never taken for a task.
pub pick_next_task-Chosen :
    {k : Kernel} (cpu prev : ℕ)
    → RqValid k
    → (linked k prev ≡ true → (k.task prev).cpu ≡ cpu)
    → (t : ℕ) × (pick_next_task k cpu prev ≡ some t) × Chosen k cpu t
unfolding pick_next_task
pick_next_task-Chosen {k} cpu prev v home = go (k.queue cpu) refl
  where
    go :
        (q : List ℕ)
        → k.queue cpu ≡ q
        → (t : ℕ) × (pick_next_task k cpu prev ≡ some t) × Chosen k cpu t
    go [] e = (k.idle k.this_cpu, rw e, inl (e, refl))
    go (x ∷ xs) e = elim (Bool-cases (not (prev == k.idle k.this_cpu) && linked k prev)) [
      | inr out ↦ (x, rw (e, out), inr (rw e (ground arith)))
      | inl on ↦
          let on_queue : has prev (x ∷ xs) ≡ true =
            rw e at (rw (home (ground arith)) at ((has_of_linked v prev (ground arith)).1)) in
          let (t, f, h) = first-some x (after prev (x ∷ xs)) xs in
          (
            t,
            rw (e, on) (pick_linked_on k cpu prev (x ∷ xs) e on_queue ∙ f),
            inr (rw e (ground (arith, has-after prev t (x ∷ xs)))),
          )
    ]

switch_unless_same-RqValid :
    {k : Kernel} (prev idle : ℕ) (o : Option ℕ)
    → RqValid k
    → RqValid (switch_unless_same k prev idle o)
unfolding switch_unless_same context_switch
switch_unless_same-RqValid prev idle none v = v
switch_unless_same-RqValid {k} prev idle (some next) v = elim (Bool-cases (next == prev)) [
  | inl same ↦ rw same v
  | inr other ↦ rw other (elim (Bool-cases (not (next == idle) && not (k.task next).has_stack)) [
    | inl stub ↦ rw stub v
    | inr whole ↦
        rw whole (record {
          counts = v.counts;
          once = v.once;
          home = λ c u h. ground (arith, v.home c u h);
        })
  ])
]

pulled-RqValid :
    {k : Kernel} (cpu : ℕ) (out : Bool × Kernel) → RqValid k → PullOutcome k cpu out → RqValid out.1
pulled-RqValid cpu (true, k') v p = p.valid
pulled-RqValid cpu (false, k') v p = rw p v

-- Scheduling on one of the four processors, with a pull from a busier processor where the queue is
-- empty, keeps the run queues valid.
pub schedule-RqValid : {k : Kernel} → RqValid k → k.this_cpu < nr_cpus → RqValid (schedule k)
unfolding schedule
schedule-RqValid {k} v room =
    let cleared : Kernel =
      set_task k (current k) (record (k.task (current k)) { need_resched = false }) in
    let w : RqValid cleared =
      set_task-RqValid (current k) (record (k.task (current k)) { need_resched = false }) v
        (ground arith) in
    let pull =
      pulled-RqValid k.this_cpu (try_pull_task cleared k.this_cpu) w
        (try_pull_task-PullOutcome w k.this_cpu room) in
    elim (Bool-cases (
      is (k.idle k.this_cpu) (pick_next_task cleared k.this_cpu (current k))
      && is_empty (k.queue k.this_cpu))) [
        | inl bare ↦ rw bare (switch_unless_same-RqValid (current k) (k.idle k.this_cpu) _ pull)
        | inr busy ↦ rw busy (switch_unless_same-RqValid (current k) (k.idle k.this_cpu) _ w)
      ]

bare_queue : (prev : ℕ) (xs ys : List ℕ) → is_empty (xs ++ prev ∷ ys) ≡ false
bare_queue prev [] ys = refl
bare_queue prev (x ∷ xs) ys = refl

switch_to_next :
    (k : Kernel) (next : ℕ)
    → (k.task next).has_stack ≡ true
    → let k' = switch_unless_same k (current k) (k.idle k.this_cpu) (some next) in
      (current k' ≡ next) × (k'.queue ≡ k.queue)
unfolding switch_unless_same context_switch
switch_to_next k next whole =
    let able : (not (next == k.idle k.this_cpu) && not (k.task next).has_stack) ≡ false =
      ground arith in
    elim (Bool-cases (next == current k)) [
      | inl same ↦ rw same (ground arith, refl)
      | inr other ↦ rw (other, able) (ground arith, refl)
    ]

-- With valid run queues, where the executing processor's task is not its idle task and waits on its
-- queue, schedule switches to the next task of that queue, or behind the last one to the first, if
-- that task has a stack; the queues are as they were and the run queues valid.
pub schedule-rotates :
    {k : Kernel} (xs ys : List ℕ) (next : ℕ)
    → RqValid k
    → k.this_cpu < nr_cpus
    → k.queue k.this_cpu ≡ xs ++ current k ∷ ys
    → current k ≢ k.idle k.this_cpu
    → first (ys ++ xs ++ current k ∷ []) [] ≡ some next
    → (k.task next).has_stack ≡ true
    → RqValid (schedule k) × (current (schedule k) ≡ next) × ((schedule k).queue ≡ k.queue)
unfolding schedule
schedule-rotates {k} xs ys next v room q active turn whole =
    let cleared : Kernel =
      set_task k (current k) (record (k.task (current k)) { need_resched = false }) in
    let w : RqValid cleared =
      set_task-RqValid (current k) (record (k.task (current k)) { need_resched = false }) v
        (ground arith) in
    let chosen : pick_next_task cleared k.this_cpu (current k) ≡ some next =
      pick_next_task-rotates {k = cleared} (current k) xs ys w room q active ∙ turn in
    let full : is_empty (k.queue k.this_cpu) ≡ false =
      ap is_empty q ∙ bare_queue (current k) xs ys in
    let busy : (is (k.idle k.this_cpu) (some next) && is_empty (k.queue k.this_cpu)) ≡ false =
      ground arith in
    let able : (cleared.task next).has_stack ≡ true = ground arith in
    let switched : (current (schedule k) ≡ next) × ((schedule k).queue ≡ k.queue) =
      rw (chosen, busy) (switch_to_next cleared next able) in
    (schedule-RqValid v room, switched.0, switched.1)
