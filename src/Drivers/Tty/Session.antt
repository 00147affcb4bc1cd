-- ===== src/Drivers/Tty/Session.antt =====
-- drivers/tty/tty.c: which group may come to the foreground.
use mini_os.Prelude.{
  ℕ, ◌≡◌, ◌≢◌, ◌∙◌, Bool, true, false, not, ◌&&◌, ◌||◌, Option, none, some, List, [], ◌∷◌, sym, ap,
  arith, ◌==◌, if◌then◌else◌, has, Bool-cases, inl, inr,
}
use mathlib.Core.Path.{subst}
use mathlib.Core.Bool.{true≢false}
use mini_os.Kernel.Task.{Ret, ok, err, eperm, esrch, Kernel, current, is_zombie, is_dead}
use mini_os.Drivers.Tty.{Console, differs, setpgrp_scan, tty_setpgrp}

-- A live user task of the group.
abbrev pub in_live_group : Kernel → (pgid t : ℕ) → Bool
in_live_group k pgid t =
    (k.task t).is_user
    && not (is_zombie (k.task t).state)
    && not (is_dead (k.task t).state)
    && (k.task t).pgid == pgid

-- What the scan says of the tasks that it went over.
pub data Scanned (k : Kernel) (pgid session : ℕ) (ts : List ℕ) : Option Bool → Type 0 where
  outsider :
      (t : ℕ)
      → has t ts ≡ true
      → in_live_group k pgid t ≡ true
      → differs session (k.task t).sid ≡ true
      → Scanned k pgid session ts none
  absent :
      ((t : ℕ) → has t ts ≡ true → in_live_group k pgid t ≡ false)
      → Scanned k pgid session ts (some false)
  present :
      (t : ℕ)
      → has t ts ≡ true
      → in_live_group k pgid t ≡ true
      → ((u : ℕ)
          → has u ts ≡ true
          → in_live_group k pgid u ≡ true
          → differs session (k.task u).sid ≡ false)
      → Scanned k pgid session ts (some true)

-- One more task in front that is not of the group.
Scanned-behind :
    {k : Kernel} {pgid session : ℕ} {ts : List ℕ} {o : Option Bool} (x : ℕ)
    → in_live_group k pgid x ≡ false
    → Scanned k pgid session ts o
    → Scanned k pgid session (x ∷ ts) o
Scanned-behind x n (outsider t h g d) = outsider t (ground arith) g d
Scanned-behind {k} {pgid} {ts = ts} x n (absent none_in) = absent (λ t h. other t h)
  where
    other : (t : ℕ) → has t (x ∷ ts) ≡ true → in_live_group k pgid t ≡ false
    other t h = elim (Bool-cases (t == x)) [
      | inl e ↦
          let same : x ≡ t = ground arith in subst (λ u. in_live_group k pgid u ≡ false) same n
      | inr e ↦ none_in t (ground arith)
    ]
Scanned-behind {k} {pgid} {session} {ts} x n (present t h g all_in) =
    present t (ground arith) g (λ u l i. other u l i)
  where
    other :
        (u : ℕ)
        → has u (x ∷ ts) ≡ true
        → in_live_group k pgid u ≡ true
        → differs session (k.task u).sid ≡ false
    other u l i = elim (Bool-cases (u == x)) [
      | inl e ↦ let same : u ≡ x = ground arith in absurd (clash same i)
      | inr e ↦ all_in u (ground arith) i
    ]
      where
        clash : u ≡ x → in_live_group k pgid u ≡ true → ⊥
        clash same i = true≢false (sym i ∙ ap (in_live_group k pgid) same ∙ n)

-- One more task in front that is, and that the session holds.
Scanned-member :
    {k : Kernel} {pgid session : ℕ} {ts : List ℕ} {o : Option Bool} (x : ℕ)
    → in_live_group k pgid x ≡ true
    → differs session (k.task x).sid ≡ false
    → Scanned k pgid session ts o
    → Scanned k pgid session (x ∷ ts) (elim o [ none ↦ none | some found ↦ some true ])
Scanned-member x g d (outsider t h i e) = outsider t (ground arith) i e
Scanned-member {k} {pgid} {session} {ts} x g d (absent none_in) =
    present x (ground arith) g (λ u l i. only u l i)
  where
    only :
        (u : ℕ)
        → has u (x ∷ ts) ≡ true
        → in_live_group k pgid u ≡ true
        → differs session (k.task u).sid ≡ false
    only u l i = elim (Bool-cases (u == x)) [
      | inl e ↦
          let same : x ≡ u = ground arith in
          subst (λ w. differs session (k.task w).sid ≡ false) same d
      | inr e ↦ absurd (true≢false (sym i ∙ none_in u (ground arith)))
    ]
Scanned-member {k} {pgid} {session} {ts} x g d (present t h i all_in) =
    present x (ground arith) g (λ u l j. both u l j)
  where
    both :
        (u : ℕ)
        → has u (x ∷ ts) ≡ true
        → in_live_group k pgid u ≡ true
        → differs session (k.task u).sid ≡ false
    both u l j = elim (Bool-cases (u == x)) [
      | inl e ↦
          let same : x ≡ u = ground arith in
          subst (λ w. differs session (k.task w).sid ≡ false) same d
      | inr e ↦ all_in u (ground arith) j
    ]

-- The call changes nothing, or it succeeds: the group has a live member, all of its live members are
-- in the terminal's session, if it has one, and only the foreground group is set.
pub data IsForeground (s : Console) (pgid : ℕ) : Option Ret × Console → Type 0 where
  refused : (r : Option Ret) → r ≢ some (ok 0) → IsForeground s pgid (r, s)
  granted :
      (t : ℕ)
      → has t s.kernel.all_tasks ≡ true
      → in_live_group s.kernel pgid t ≡ true
      → ((u : ℕ)
          → has u s.kernel.all_tasks ≡ true
          → in_live_group s.kernel pgid u ≡ true
          → differs s.tty.session_id (s.kernel.task u).sid ≡ false)
      → differs s.tty.session_id (s.kernel.task (current s.kernel)).sid ≡ false
      → IsForeground s pgid
          (some (ok 0), record s { tty = record s.tty { foreground_pgid = pgid } })

setpgrp_scan-Scanned :
    (k : Kernel) (pgid session : ℕ) (ts : List ℕ)
    → Scanned k pgid session ts (setpgrp_scan k pgid session ts)
unfolding setpgrp_scan
setpgrp_scan-Scanned k pgid session [] = absent (λ t h. absurd (ground arith))
setpgrp_scan-Scanned k pgid session (x ∷ ts) =
    let rest = setpgrp_scan-Scanned k pgid session ts in
    elim (Bool-cases
      (not (k.task x).is_user || is_zombie (k.task x).state || is_dead (k.task x).state)) [
        | inl e ↦ rw e (Scanned-behind x (ground arith) rest)
        | inr e ↦ elim (Bool-cases (not ((k.task x).pgid == pgid))) [
          | inl f ↦ rw (e, f) (Scanned-behind x (ground arith) rest)
          | inr f ↦ elim (Bool-cases (differs session (k.task x).sid)) [
            | inl d ↦ rw (e, f, d) (outsider x (ground arith) (ground arith) d)
            | inr d ↦ rw (e, f, d) (Scanned-member x (ground arith) d rest)
          ]
        ]
      ]

-- tty_setpgrp fails and changes nothing, or it sets just the foreground group, and then the group
-- has a live user task, every such task is in the terminal's session if it has one, and so is the
-- caller.
pub tty_setpgrp-IsForeground : (s : Console) (pgid : ℕ) → IsForeground s pgid (tty_setpgrp s pgid)
unfolding tty_setpgrp
tty_setpgrp-IsForeground s pgid = elim (Bool-cases (pgid == 0)) [
  | inl e ↦ rw e (refused _ (λ x. ground arith))
  | inr e ↦ elim (Bool-cases (differs s.tty.session_id (s.kernel.task (current s.kernel)).sid)) [
    | inl f ↦ rw (e, f) (refused _ (λ x. ground arith))
    | inr f ↦
        rw (e, f) (after f (setpgrp_scan-Scanned s.kernel pgid s.tty.session_id s.kernel.all_tasks))
  ]
]
  where
    after :
        differs s.tty.session_id (s.kernel.task (current s.kernel)).sid ≡ false
        → {o : Option Bool} → Scanned s.kernel pgid s.tty.session_id s.kernel.all_tasks o
        → IsForeground s pgid (elim o as (λ _. Option Ret × Console) [
          | none ↦ (some (err eperm), s)
          | some found ↦
              if found
              then (some (ok 0), record s { tty = record s.tty { foreground_pgid = pgid } })
              else (some (err esrch), s)
        ])
    after f (outsider t h g d) = refused _ (λ x. ground arith)
    after f (absent none_in) = refused _ (λ x. ground arith)
    after f (present t h g all_in) = granted t h g all_in f
