-- ===== src/Fs/Files/Calls.antt =====
-- fs/open.c: `fcntl`, and all of the calls together, keep the references exact.
use mini_os.Prelude.{
  ℕ, ◌+◌, ◌-◌, ◌%◌, ◌^◌, ◌<◌, ◌≡◌, Bool, true, false, not, ◌||◌, Option, none, some, refl, ap,
  arith, leb, ◌==◌, bit_and, complement, update, Bool-cases, Option-cases, inl, inr,
}
use mini_os.Kernel.Task.{Ret, ok, err}
use mini_os.Fs.Files.{
  File, Files, nr_open, get_file, install_fd_min, lookup_fd, close_fd, close_on_exec_fds, installed,
  ksys_dup, ksys_dup2, ksys_dup3,
}
use mini_os.Fs.Files.Fcntl.{dupfd, mark_installed, set_fd_flags, fcntl_of, ksys_fcntl, with_flags}
use mini_os.Fs.Files.Count.{
  refs, refcount_of, holds, count, Counted, get_file-Counted, fput-Counted,
}
use mini_os.Fs.Files.Descriptors.{
  mark-Counted, held-refs, install_from-Counted, ksys_dup-Counted, ksys_dup2-Counted,
  ksys_dup3-Counted, close_fd-Counted, close_marked_below-Counted,
}

-- The end of the duplicating commands of `fcntl`.
mark_installed-Counted :
    {others : ℕ → ℕ} (cloexec : Bool) (out : Ret × Files)
    → Counted others out.1
    → Counted others (mark_installed cloexec out).1
unfolding mark_installed
mark_installed-Counted cloexec (ok fd, s) c = mark-Counted cloexec fd c
mark_installed-Counted cloexec (err e, s) c = c

install_fd_min-Counted :
    {others : ℕ → ℕ} {s : Files} (p minfd : ℕ)
    → Counted (λ q. others q + holds (some p) q) s
    → Counted others (installed p (install_fd_min s p minfd)).1
unfolding install_fd_min installed
install_fd_min-Counted p minfd c = elim (Bool-cases (leb nr_open minfd)) [
  | inl e ↦ rw e (fput-Counted p c)
  | inr e ↦ rw e (install_from-Counted (nr_open - minfd) minfd p (ground arith) c)
]

dupfd-Counted :
    {others : ℕ → ℕ} {s : Files} (p arg : ℕ) (cloexec : Bool)
    → Counted others s
    → 0 < refs s p
    → Counted others (dupfd s p arg cloexec).1
unfolding dupfd
dupfd-Counted {others} {s} p arg cloexec c h =
    elim (Bool-cases (leb (2 ^ 31) (arg % 2 ^ 32) || leb nr_open (arg % 2 ^ 32))) [
      | inl e ↦ rw e c
      | inr e ↦ rw e (
          mark_installed-Counted cloexec
            (installed p (install_fd_min (get_file s p) p (arg % 2 ^ 32)))
            (install_fd_min-Counted p (arg % 2 ^ 32) (get_file-Counted p c h)))
    ]

with_flags-refcount : (arg : ℕ) (f : Option File) → refcount_of (with_flags arg f) ≡ refcount_of f
with_flags-refcount arg none = refl
with_flags-refcount arg (some f) = refl

fcntl_of-Counted :
    {others : ℕ → ℕ} {s : Files} (p fd cmd arg : ℕ)
    → Counted others s
    → 0 < refs s p
    → Counted others (fcntl_of s p fd cmd arg).1
unfolding fcntl_of set_fd_flags
fcntl_of-Counted {others} {s} p fd cmd arg c h = elim (Bool-cases (cmd == 0)) [
  | inl e ↦ rw e (dupfd-Counted p arg false c h)
  | inr e ↦ elim (Bool-cases (cmd == 0x406)) [
    | inl f ↦ rw (e, f) (dupfd-Counted p arg true c h)
    | inr f ↦ elim (Bool-cases (cmd == 1)) [
      | inl g ↦ rw (e, f, g) c
      | inr g ↦ elim (Bool-cases (cmd == 2)) [
        | inl i ↦ rw (e, f, g, i) set_fd
        | inr i ↦ elim (Bool-cases (cmd == 3)) [
          | inl j ↦ rw (e, f, g, i, j) c
          | inr j ↦ elim (Bool-cases (cmd == 4)) [
            | inl k ↦ rw (e, f, g, i, j, k) (record { counted = same })
            | inr k ↦ rw (e, f, g, i, j, k) c
          ]
        ]
      ]
    ]
  ]
]
  where
    set_fd : Counted others (set_fd_flags s fd arg).1
    set_fd = elim (Bool-cases (not (bit_and arg (complement 64 1) == 0))) [
      | inl l ↦ rw l c
      | inr l ↦ rw l (mark-Counted (not (bit_and arg 1 == 0)) fd c)
    ]

    same :
        (q : ℕ)
        → refcount_of (update s.file p (with_flags arg (s.file p)) q)
          ≡ others q + count nr_open s.files q
    same q = elim (Bool-cases (q == p)) [
      | inl l ↦
          let here : q ≡ p = ground arith in
          rw l (omega (arith, with_flags-refcount arg (s.file p), c.counted q, ap (refs s) here))
      | inr l ↦ rw l (c.counted q)
    ]

ksys_fcntl-Counted :
    {others : ℕ → ℕ} {s : Files} (fd cmd arg : ℕ)
    → Counted others s
    → Counted others (ksys_fcntl s fd cmd arg).1
unfolding ksys_fcntl
ksys_fcntl-Counted {others} {s} fd cmd arg c = elim (Option-cases (lookup_fd s fd)) [
  | inl e ↦ rw (ksys_fcntl, e) c
  | inr (p, e) ↦ rw (ksys_fcntl, e) (fcntl_of-Counted p fd cmd arg c (held-refs fd p c e).2)
]

-- The calls that a task makes on its table.
pub data Call : Type 0 where
  close dup : (fd : ℕ) → Call
  dup2 : (oldfd newfd : ℕ) → Call
  dup3 : (oldfd newfd flags : ℕ) → Call
  fcntl : (fd cmd arg : ℕ) → Call
  exec : Call

abbrev pub after_call : Call → Files → Files
after_call (close fd) s = (close_fd s fd).1
after_call (dup fd) s = (ksys_dup s fd).1
after_call (dup2 oldfd newfd) s = (ksys_dup2 s oldfd newfd).1
after_call (dup3 oldfd newfd flags) s = (ksys_dup3 s oldfd newfd flags).1
after_call (fcntl fd cmd arg) s = (ksys_fcntl s fd cmd arg).1
after_call exec s = close_on_exec_fds s

-- If the reference count of every open file is the number of descriptors of the table that hold it
-- plus the references held elsewhere, then so it is after close, dup, dup2, dup3, fcntl or
-- close_on_exec_fds, with any arguments, on success and on every error.
pub after_call-Counted :
    (others : ℕ → ℕ) (call : Call) (s : Files)
    → Counted others s
    → Counted others (after_call call s)
unfolding close_on_exec_fds
after_call-Counted others (close fd) s c = close_fd-Counted fd c
after_call-Counted others (dup fd) s c = ksys_dup-Counted fd c
after_call-Counted others (dup2 oldfd newfd) s c = ksys_dup2-Counted oldfd newfd c
after_call-Counted others (dup3 oldfd newfd flags) s c = ksys_dup3-Counted oldfd newfd flags c
after_call-Counted others (fcntl fd cmd arg) s c = ksys_fcntl-Counted fd cmd arg c
after_call-Counted others exec s c = close_marked_below-Counted nr_open (omega arith) c
