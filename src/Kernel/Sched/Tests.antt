-- ===== src/Kernel/Sched/Tests.antt =====
-- Runs of the scheduler, and its theorems at a concrete system.
use mini_os.Prelude.{◌≡◌, ◌⊎◌, refl, [], ◌∷◌, arith}
use mini_os.Kernel.Task.{ok, err, einval, current}
use mini_os.Kernel.Sched.{
  migrate_task, find_busiest_cpu, try_pull_task, schedule, pull_busiest, pick_migratable_task,
  resched_cpu,
}
use mini_os.Kernel.Sched.Invariant.{RqValid}
use mini_os.Kernel.Sched.Migrate.{Migrated, IsEligible, migrate_task-Migrated}
use mini_os.Kernel.Sched.Balance.{PullOutcome, try_pull_task-PullOutcome}
use mini_os.Kernel.Sched.Pick.{schedule-rotates}
use mini_os.Kernel.Sample.{system, system-RqValid}

pull_takes_last : (try_pull_task (system 0) 0).1.queue 0 ≡ 12 ∷ []
unfolding try_pull_task find_busiest_cpu pull_busiest pick_migratable_task migrate_task resched_cpu
pull_takes_last = refl

migrate_task-Migrated_example :
    (IsEligible (system 0) 12
      × ((migrate_task (system 0) 12 3).0 ≡ ok 0)
      × Migrated (system 0) 12 3 (migrate_task (system 0) 12 3).1)
    ⊎ (¬ IsEligible (system 0) 12 × (migrate_task (system 0) 12 3 ≡ (err einval, system 0)))
migrate_task-Migrated_example =
    migrate_task-Migrated 12 3 (system-RqValid 0) (omega arith) (omega arith) (omega arith)

try_pull_task-PullOutcome_example : PullOutcome (system 0) 0 (try_pull_task (system 0) 0)
try_pull_task-PullOutcome_example = try_pull_task-PullOutcome (system-RqValid 0) 0 (omega arith)

schedule-rotates_example :
    RqValid (schedule (system 1))
    × (current (schedule (system 1)) ≡ 11)
    × ((schedule (system 1)).queue ≡ (system 1).queue)
schedule-rotates_example =
    schedule-rotates [] (11 ∷ 12 ∷ []) 11 (system-RqValid 1) (omega arith) refl (omega arith) refl
      refl
