-- ===== src/Kernel/Sched/Balance.antt =====
-- Load balancing in kernel/sched/core.c: finding the busiest processor and pulling from it.
use mini_os.Prelude.{
  ℕ, ◌+◌, ◌≤◌, ◌<◌, ◌≡◌, ◌≢◌, ◌⊎◌, inl, inr, refl, sym, ◌∙◌, Bool, true, false, not, ◌&&◌, ◌||◌,
  Option, none, some, List, [], ◌∷◌, arith, ltb, leb, ◌==◌, Bool-cases, if◌then◌else◌, has,
}
use mathlib.Core.Path.{subst}
use mathlib.Core.List.{reverse, reverse_aux}
use mini_os.Kernel.Task.{Ret, ok, err, einval, Kernel, nr_cpus}
use mini_os.Kernel.Sched.{
  migrate_task, busiest_of, all_cpus, find_busiest_cpu, try_pull_task, pull_busiest, pull_from,
  pulled, pick_migratable_task, first_migratable,
}
use mini_os.Kernel.Sched.Invariant.{RqValid}
use mini_os.Kernel.Sched.Migrate.{Migrated, migrate_task-Migrated}

-- No processor of `cpus` but `this_cpu` has more than `load` tasks.
abbrev pub NoneAbove : Kernel → ℕ → List ℕ → ℕ → Type 0
NoneAbove k this_cpu cpus load = (d : ℕ) → has d cpus ≡ true → d ≢ this_cpu → k.nr_running d ≤ load

-- The result of the loop from the load `max_load` and the choice `start`.
abbrev Busiest : Kernel → ℕ → (max_load start : ℕ) → List ℕ → ℕ → Type 0
Busiest k this_cpu max_load start cpus r =
    ((r ≡ start) × NoneAbove k this_cpu cpus max_load)
    ⊎ ((r ≢ this_cpu)
        × (has r cpus ≡ true)
        × (max_load < k.nr_running r)
        × NoneAbove k this_cpu cpus (k.nr_running r))

module _ (k : Kernel) (c m b x : ℕ) (xs : List ℕ) where
  NoneAbove-cons :
      {load : ℕ}
      → NoneAbove k c xs load
      → (x ≢ c → k.nr_running x ≤ load)
      → NoneAbove k c (x ∷ xs) load
  NoneAbove-cons h new d e n = ground (arith, h d, new)

  better-Busiest :
      (not (x == c) && ltb m (k.nr_running x)) ≡ true
      → (r : ℕ) → Busiest k c (k.nr_running x) x xs r
      → Busiest k c m b (x ∷ xs) r
  better-Busiest t r (inl (e, h)) =
      inr (ground arith, ground arith, ground arith, rw e (NoneAbove-cons h (λ n. omega arith)))
  better-Busiest t r (inr (n, i, l, h)) =
      inr (n, ground arith, ground arith, NoneAbove-cons h (λ n. omega arith))

  worse-Busiest :
      (not (x == c) && ltb m (k.nr_running x)) ≡ false
      → (r : ℕ) → Busiest k c m b xs r
      → Busiest k c m b (x ∷ xs) r
  worse-Busiest t r (inl (e, h)) = inl (e, NoneAbove-cons h (λ n. ground arith))
  worse-Busiest t r (inr (n, i, l, h)) =
      inr (n, ground arith, l, NoneAbove-cons h (λ n. ground arith))

busiest_of_step :
    (k : Kernel) (c m b x : ℕ) (xs : List ℕ) (t : Bool)
    → (not (x == c) && ltb m (k.nr_running x)) ≡ t
    → busiest_of k c m b (x ∷ xs)
      ≡ busiest_of k c (if t then k.nr_running x else m) (if t then x else b) xs
unfolding busiest_of
busiest_of_step k c m b x xs t e = rw e

busiest_of_lem :
    (k : Kernel) (this_cpu max_load start : ℕ) (cpus : List ℕ)
    → Busiest k this_cpu max_load start cpus (busiest_of k this_cpu max_load start cpus)
busiest_of_lem k c m b [] = inl (unfold busiest_of in refl, λ d h n. absurd (ground arith))
busiest_of_lem k c m b (x ∷ xs) = elim (Bool-cases (not (x == c) && ltb m (k.nr_running x))) [
  | inl e ↦
      subst (Busiest k c m b (x ∷ xs)) (sym (busiest_of_step k c m b x xs true e))
        (better-Busiest k c m b x xs e _ (busiest_of_lem k c (k.nr_running x) x xs))
  | inr e ↦
      subst (Busiest k c m b (x ∷ xs)) (sym (busiest_of_step k c m b x xs false e))
        (worse-Busiest k c m b x xs e _ (busiest_of_lem k c m b xs))
]

-- What `find_busiest_cpu` may answer.
abbrev pub Found : Kernel → ℕ → Option ℕ → Type 0
Found k this_cpu none = NoneAbove k this_cpu all_cpus (k.nr_running this_cpu + 1)
Found k this_cpu (some b) =
    (b ≢ this_cpu)
    × (has b all_cpus ≡ true)
    × (k.nr_running this_cpu + 1 < k.nr_running b)
    × NoneAbove k this_cpu all_cpus (k.nr_running b)

-- `find_busiest_cpu` names another processor with at least two tasks more than this one, and with
-- the most of all others; or none, where every other has at most one more.
pub find_busiest_cpu-Found :
    (k : Kernel) (this_cpu : ℕ) → Found k this_cpu (find_busiest_cpu k this_cpu)
unfolding find_busiest_cpu
find_busiest_cpu-Found k c = go _ (busiest_of_lem k c (k.nr_running c + 1) c all_cpus)
  where
    go :
        (r : ℕ)
        → Busiest k c (k.nr_running c + 1) c all_cpus r
        → Found k c (if r == c then none else some r)
    go r (inl (e, h)) = let t : (r == c) ≡ true = ground arith in rw t h
    go r (inr (n, i, l, h)) = let t : (r == c) ≡ false = ground arith in rw t (n, i, l, h)

-- What a successful pull does: this processor's queue is longer by one task, taken from a processor
-- that still has at least as many.
pub record Pulled (k : Kernel) (this_cpu : ℕ) (k' : Kernel) : Type 0 where
  pub valid : RqValid k'
  pub gained : k'.nr_running this_cpu ≡ k.nr_running this_cpu + 1
  pub source : ℕ
  pub robbed : k'.nr_running source + 1 ≡ k.nr_running source
  pub level : k'.nr_running this_cpu ≤ k'.nr_running source
  pub others : (c : ℕ) → c ≢ this_cpu → c ≢ source → k'.nr_running c ≡ k.nr_running c

abbrev pub PullOutcome : Kernel → ℕ → Bool × Kernel → Type 0
PullOutcome k this_cpu (false, k') = k' ≡ k
PullOutcome k this_cpu (true, k') = Pulled k this_cpu k'

has-reverse :
    (a : ℕ) (xs ys : List ℕ) → has a (reverse_aux xs ys) ≡ true → (has a xs || has a ys) ≡ true
has-reverse a [] ys h = h
has-reverse a (x ∷ xs) ys h = ground (arith, has-reverse a xs (x ∷ ys) h)

-- A task found to be migratable is queued there and is not the one excluded.
first_migratable-has :
    (k : Kernel) (x : ℕ) (ts : List ℕ) (t : ℕ)
    → first_migratable k x ts ≡ some t
    → (has t ts ≡ true) × ((t == x) ≡ false)
unfolding first_migratable
first_migratable-has k x [] t e = absurd (ground arith)
first_migratable-has k x (u ∷ us) t e = ground (arith, first_migratable-has k x us t)

pick_has :
    (k : Kernel) (cpu x t : ℕ) → pick_migratable_task k cpu x ≡ some t → has t (k.queue cpu) ≡ true
unfolding pick_migratable_task
pick_has k cpu x t e =
    ground
      (arith, first_migratable-has k x (reverse (k.queue cpu)) t, has-reverse t (k.queue cpu) [])

module _ {k : Kernel} (v : RqValid k) (this_cpu : ℕ) (room : this_cpu < nr_cpus) where
  Migrated-Outcome :
      (t : ℕ)
      → (k.task t).cpu ≢ this_cpu
      → k.nr_running this_cpu + 1 < k.nr_running (k.task t).cpu
      → (out : Ret × Kernel) → out.0 ≡ ok 0
      → Migrated k t this_cpu out.1
      → PullOutcome k this_cpu (pulled out)
  unfolding pulled
  Migrated-Outcome t n more (r, k') e g = rw e (record {
    valid = g.valid;
    gained = g.given;
    source = (k.task t).cpu;
    robbed = g.taken;
    level = omega (arith, g.given, g.taken);
    others = λ c m s. g.others c m s;
  })

  refused-Outcome :
      (out : Ret × Kernel) → out ≡ (err einval, k) → PullOutcome k this_cpu (pulled out)
  unfolding pulled
  refused-Outcome out e = rw e refl

  pull_from-Outcome :
      (b t : ℕ)
      → b ≢ this_cpu
      → k.nr_running this_cpu + 1 < k.nr_running b
      → has t (k.queue b) ≡ true
      → PullOutcome k this_cpu (pull_from k this_cpu (some t))
  unfolding pull_from
  pull_from-Outcome b t n more h =
      let (at, small) = v.home b t h in
      elim (migrate_task-Migrated t this_cpu v room (omega arith) (λ e. n (sym at ∙ e))) [
        | inl (can, e, g) ↦
            Migrated-Outcome t (λ e. n (sym at ∙ e)) (rw at more) (migrate_task k t this_cpu) e g
        | inr (can, e) ↦ refused-Outcome (migrate_task k t this_cpu) e
      ]

  pull_busiest-Outcome :
      (o : Option ℕ) → Found k this_cpu o → PullOutcome k this_cpu (pull_busiest k this_cpu o)
  unfolding pull_busiest
  pull_busiest-Outcome none f = refl
  pull_busiest-Outcome (some b) (n, i, more, most) = go (pick_migratable_task k b (k.curr b)) refl
    where
      go :
          (o : Option ℕ)
          → pick_migratable_task k b (k.curr b) ≡ o
          → PullOutcome k this_cpu (pull_from k this_cpu o)
      go none e = unfold pull_from in refl
      go (some t) e = pull_from-Outcome b t n more (pick_has k b (k.curr b) t e)

  -- With valid run queues, a pull of one of the four processors either changes nothing or moves one
  -- task to it from a processor that had at least two more, and leaves the counts of the others;
  -- the source keeps at least as many as this one.
  pub try_pull_task-PullOutcome : PullOutcome k this_cpu (try_pull_task k this_cpu)
  unfolding try_pull_task
  try_pull_task-PullOutcome =
      let near : leb nr_cpus this_cpu ≡ false = ground arith in
      rw near
        (pull_busiest-Outcome (find_busiest_cpu k this_cpu) (find_busiest_cpu-Found k this_cpu))
