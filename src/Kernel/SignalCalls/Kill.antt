-- ===== src/Kernel/SignalCalls/Kill.antt =====
-- `ksys_kill` of kernel/signal.c: the tasks that it addresses.
use mini_os.Prelude.{
  ℕ, zero, suc, ◌≡◌, Bool, true, false, not, ◌&&◌, ◌||◌, Option, none, some, List, [], ◌∷◌, refl,
  arith, ltb, ◌==◌, if◌then◌else◌, Bool-cases, inl, inr,
}
use mini_os.Prelude.Int.{ℤ, pos, negsuc}
use mini_os.Kernel.Task.{Ret, ok, err, esrch, Kernel, current, is_dead}
use mini_os.Kernel.Signal.{nsig, signal_send, find_task_by_pid, find_in}
use mini_os.Kernel.Signal.Send.{OnCpu, signal_send-OnCpu}
use mini_os.Kernel.SignalCalls.{
  signal_found, signal_one_process, signal_each, in_group, not_caller, signal_process_group,
  kill_valid, ksys_kill,
}

signal_each-OnCpu :
    (chosen : Kernel → ℕ → Bool) (sig : ℕ) (ts : List ℕ) {k : Kernel}
    → OnCpu k
    → OnCpu (signal_each chosen k sig ts).1
unfolding signal_each
signal_each-OnCpu chosen sig [] v = v
signal_each-OnCpu chosen sig (t ∷ ts) {k} v =
    signal_each-OnCpu chosen sig ts (send_if (chosen k t && not (sig == 0)))
  where
    send_if : (b : Bool) → OnCpu (if b then signal_send k t sig else k)
    send_if true = signal_send-OnCpu t sig v
    send_if false = v

signal_found-OnCpu :
    {k : Kernel} (o : Option ℕ) (sig : ℕ) → OnCpu k → OnCpu (signal_found k o sig).1
unfolding signal_found
signal_found-OnCpu none sig v = v
signal_found-OnCpu (some t) sig v = elim (Bool-cases (sig == 0)) [
  | inl ask ↦ rw ask v
  | inr real ↦ rw real (signal_send-OnCpu t sig v)
]

group-OnCpu : {k : Kernel} (pgid sig : ℕ) → OnCpu k → OnCpu (signal_process_group k pgid sig).1
unfolding signal_process_group
group-OnCpu {k} pgid sig v = elim (Bool-cases (pgid == 0)) [
  | inl none_such ↦ rw none_such v
  | inr group ↦ rw group (signal_each-OnCpu (in_group pgid) sig k.all_tasks v)
]

-- With valid run queues and one of the four processors executing, `kill` keeps this so, whatever
-- its arguments.
pub ksys_kill-OnCpu : {k : Kernel} (pid sig : ℤ) → OnCpu k → OnCpu (ksys_kill k pid sig).1
unfolding ksys_kill signal_one_process
ksys_kill-OnCpu pid (negsuc n) v = v
ksys_kill-OnCpu {k} pid (pos sig) v = elim (Bool-cases (ltb sig nsig)) [
  | inr bad ↦ rw bad v
  | inl good ↦ rw good (valid pid)
]
  where
    valid : (p : ℤ) → OnCpu (kill_valid k p sig).1
    valid (pos zero) = group-OnCpu (k.task (current k)).pgid sig v
    valid (pos (suc n)) = signal_found-OnCpu (find_task_by_pid k (pos (suc n))) sig v
    valid (negsuc zero) = signal_each-OnCpu (not_caller (current k)) sig k.all_tasks v
    valid (negsuc (suc n)) = group-OnCpu (suc (suc n)) sig v

-- Some task of the list passes the test.
abbrev pub any : (ℕ → Bool) → List ℕ → Bool
any f [] = false
any f (t ∷ ts) = f t || any f ts

-- The tasks that `kill` addresses by its first argument.
abbrev pub is_target : Kernel → ℤ → ℕ → Bool
is_target k (pos zero) t =
    not ((k.task (current k)).pgid == 0) && in_group (k.task (current k)).pgid k t
is_target k (pos (suc n)) t =
    let r = k.task t in r.pid == suc n && r.is_user && not (is_dead r.state)
is_target k (negsuc zero) t = not_caller (current k) k t
is_target k (negsuc (suc n)) t = in_group (suc (suc n)) k t

each_ask :
    (chosen : Kernel → ℕ → Bool) (k : Kernel) (ts : List ℕ)
    → signal_each chosen k 0 ts ≡ (any (chosen k) ts, k)
unfolding signal_each
each_ask chosen k [] = refl
each_ask chosen k (t ∷ ts) = rw (and_false (chosen k t), each_ask chosen k ts)
  where
    and_false : (b : Bool) → (b && false) ≡ false
    and_false true = refl
    and_false false = refl

any-and : (b : Bool) (f : ℕ → Bool) (ts : List ℕ) → any (λ t. b && f t) ts ≡ (b && any f ts)
any-and true f ts = refl
any-and false f [] = refl
any-and false f (t ∷ ts) = any-and false f ts

group_ask :
    (k : Kernel) (pgid : ℕ)
    → signal_process_group k pgid 0
      ≡ (if any (λ t. not (pgid == 0) && in_group pgid k t) k.all_tasks then ok 0 else err esrch, k)
unfolding signal_process_group
group_ask k pgid =
    rw
      (
        any-and (not (pgid == 0)) (in_group pgid k) k.all_tasks,
        each_ask (in_group pgid) k k.all_tasks,
      )
      (choose (pgid == 0))
  where
    choose :
        (b : Bool)
        → ◌≡◌ {A = Ret × Kernel}
            (if b
              then (err esrch, k)
              else (if any (in_group pgid k) k.all_tasks then ok 0 else err esrch, k))
            (if not b && any (in_group pgid k) k.all_tasks then ok 0 else err esrch, k)
    choose true = refl
    choose false = refl

positive : (m : ℕ) → (suc m == 0) ≡ false
positive m = ground arith

named_group_ask :
    (k : Kernel) (n : ℕ)
    → signal_process_group k (suc n) 0
      ≡ (if any (in_group (suc n) k) k.all_tasks then ok 0 else err esrch, k)
unfolding signal_process_group
named_group_ask k n = rw (positive n, each_ask (in_group (suc n)) k k.all_tasks)

find_ask :
    (k : Kernel) (n : ℕ) (ts : List ℕ)
    → signal_found k (find_in k (suc n) ts) 0
      ≡ (if any (is_target k (pos (suc n))) ts then ok 0 else err esrch, k)
unfolding signal_found find_in
find_ask k n [] = refl
find_ask k n (t ∷ ts) = elim (Bool-cases (is_target k (pos (suc n)) t)) [
  | inl hit ↦ rw hit
  | inr miss ↦ rw miss (find_ask k n ts)
]

-- With signal 0 `kill` changes nothing: it succeeds if some task is a target, and else fails with
-- ESRCH.
pub ksys_kill-ask :
    (k : Kernel) (pid : ℤ)
    → ksys_kill k pid (pos 0) ≡ (if any (is_target k pid) k.all_tasks then ok 0 else err esrch, k)
unfolding ksys_kill signal_one_process find_task_by_pid
ksys_kill-ask k (pos zero) = group_ask k (k.task (current k)).pgid
ksys_kill-ask k (pos (suc n)) = rw (positive n) (find_ask k n k.all_tasks)
ksys_kill-ask k (negsuc zero) = rw (each_ask (not_caller (current k)) k k.all_tasks)
ksys_kill-ask k (negsuc (suc n)) = named_group_ask k (suc n)
