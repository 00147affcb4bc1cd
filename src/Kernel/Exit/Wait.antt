-- ===== src/Kernel/Exit/Wait.antt =====
-- The loop of `ksys_wait4` of kernel/exit.c, without a child and with WNOHANG.
use mini_os.Prelude.{
  ℕ, ◌≡◌, Bool, true, false, ◌&&◌, Option, none, some, List, [], ◌∷◌, refl, ap, arith,
  if◌then◌else◌, has,
}
use mini_os.Prelude.Int.{ℤ}
use mini_os.Kernel.Task.{
  Ret, ok, err, echild, efault, child_event_stopped, child_event_continued, ChildEvent, Kernel,
  is_zombie,
}
use mini_os.Kernel.SignalCalls.{UserOut}
use mini_os.Kernel.Exit.{
  is_child, first, any_state, find_child, same_event, take_event, Waited, no_child, bad_copy,
  reported, reap, wait_reap_zombie, wait_event_child, Options, Pass, returns, childless,
  after_event, after_reap, wait4_pass,
}

first-none :
    (f : ℕ → Bool) (ts : List ℕ) → ((t : ℕ) → has t ts ≡ true → f t ≡ false) → first f ts ≡ none
unfolding first
first-none f [] h = refl
first-none f (t ∷ ts) h = rw (h t (ground arith), first-none f ts (λ s m. h s (ground arith)))

module _ (k : Kernel) (p : ℕ) (pid : ℤ) (status : UserOut)
    (h : (t : ℕ) → has t k.all_tasks ≡ true → is_child k p pid t ≡ false) where
  no_such : (g : ℕ → Bool) → first (λ t. is_child k p pid t && g t) k.all_tasks ≡ none
  no_such g = first-none (λ t. is_child k p pid t && g t) k.all_tasks (λ t m. rw (h t m))

  reap_none : wait_reap_zombie k p pid status ≡ (no_child, k)
  unfolding wait_reap_zombie reap find_child
  reap_none = ap (reap k p status) (no_such (λ t. is_zombie (k.task t).state))

  event_none : (e : ChildEvent) → wait_event_child k p pid e status ≡ (no_child, k)
  unfolding wait_event_child take_event
  event_none e = ap (take_event k e status) (no_such (λ t. same_event (k.task t).wait_event e))

  find_none : find_child k p pid any_state ≡ none
  unfolding find_child
  find_none = no_such (λ t. any_state (k.task t).state)

if_none :
    {k : Kernel} (b : Bool) {w : Waited × Kernel}
    → w ≡ (no_child, k)
    → (if b then w else (no_child, k)) ≡ (no_child, k)
if_none true e = e
if_none false e = refl

-- A task that has no wanted child in the list of tasks gets ECHILD from `wait4` at once, whatever
-- its options, and nothing changes.
pub wait4_pass-childless :
    (k : Kernel) (p : ℕ) (pid : ℤ) (status : UserOut) (o : Options)
    → ((t : ℕ) → has t k.all_tasks ≡ true → is_child k p pid t ≡ false)
    → wait4_pass k p pid status o ≡ (returns (err echild) none, k)
unfolding wait4_pass after_reap after_event childless
wait4_pass-childless k p pid status o h = rw (
  reap_none k p pid status h,
  if_none o.wuntraced (event_none k p pid status h child_event_stopped),
  if_none o.wcontinued (event_none k p pid status h child_event_continued),
  find_none k p pid status h,
)

abbrev Returns : Pass × Kernel → Type 0
Returns out = (r : Ret) × (code : Option ℕ) × (out.0 ≡ returns r code)

after_reap-Returns :
    (w : Waited × Kernel) (next : Kernel → Pass × Kernel)
    → ((k : Kernel) → Returns (next k))
    → Returns (after_reap w next)
unfolding after_reap
after_reap-Returns (no_child, k) next h = h k
after_reap-Returns (bad_copy, k) next h = h k
after_reap-Returns (reported pid status, k) next h = (ok pid, some status, refl)

after_event-Returns :
    (w : Waited × Kernel) (next : Kernel → Pass × Kernel)
    → ((k : Kernel) → Returns (next k))
    → Returns (after_event w next)
unfolding after_event
after_event-Returns (no_child, k) next h = h k
after_event-Returns (bad_copy, k) next h = (err efault, none, refl)
after_event-Returns (reported pid status, k) next h = (ok pid, some status, refl)

childless-Returns :
    (k : Kernel) (p : ℕ) (pid : ℤ) (o : Options) (found : Option ℕ)
    → o.wnohang ≡ true
    → Returns (childless k p pid o found)
unfolding childless
childless-Returns k p pid o none h = (err echild, none, refl)
childless-Returns k p pid o (some t) h = rw h (ok 0, none, refl)

-- With WNOHANG a pass of `wait4` returns.
pub wait4_pass-nohang :
    (k : Kernel) (p : ℕ) (pid : ℤ) (status : UserOut) (o : Options)
    → o.wnohang ≡ true
    → (r : Ret) × (code : Option ℕ) × ((wait4_pass k p pid status o).0 ≡ returns r code)
unfolding wait4_pass
wait4_pass-nohang k p pid status o h =
    let last = λ (k3 : Kernel). childless k3 p pid o (find_child k3 p pid any_state) in
    let continued = λ (k2 : Kernel).
      if o.wcontinued
      then wait_event_child k2 p pid child_event_continued status
      else (no_child, k2) in
    let stopped = λ (k1 : Kernel).
      if o.wuntraced
      then wait_event_child k1 p pid child_event_stopped status
      else (no_child, k1) in
    let third = λ (k2 : Kernel). after_event (continued k2) last in
    after_reap-Returns (wait_reap_zombie k p pid status) (λ k1. after_event (stopped k1) third)
      (λ k1. after_event-Returns (stopped k1) third (λ k2.
        after_event-Returns (continued k2) last
          (λ k3. childless-Returns k3 p pid o (find_child k3 p pid any_state) h)))
