-- ===== src/Fs/Files/Fcntl.antt =====
-- `ksys_fcntl` of fs/open.c.
use mini_os.Prelude.{
  ℕ, ◌%◌, ◌^◌, Bool, true, false, not, ◌||◌, Option, none, some, leb, ◌==◌, if◌then◌else◌, bit_and,
  bit_or, complement, update,
}
use mini_os.Kernel.Task.{Ret, ok, err, einval, ebadf}
use mini_os.Fs.Files.{File, Files, nr_open, lookup_fd, get_file, install_fd_min, installed, mark}

abbrev pub o_append : ℕ
o_append = 0x400

abbrev pub o_nonblock : ℕ
o_nonblock = 0x800

abbrev pub o_async : ℕ
o_async = 0x2000

abbrev pub status_flags : ℕ
status_flags = bit_or (bit_or o_append o_nonblock) o_async

-- The end of F_DUPFD and F_DUPFD_CLOEXEC.
unfoldable pub mark_installed : (cloexec : Bool) → Ret × Files → Ret × Files
mark_installed cloexec (ok fd, s) = (ok fd, mark cloexec s fd)
mark_installed cloexec (err e, s) = (err e, s)

unfoldable pub dupfd : Files → (p arg : ℕ) → (cloexec : Bool) → Ret × Files
dupfd s p arg cloexec =
    let minfd = arg % 2 ^ 32 in
    if leb (2 ^ 31) minfd || leb nr_open minfd
    then (err einval, s)
    else mark_installed cloexec (installed p (install_fd_min (get_file s p) p minfd))

abbrev pub flags_of : Option File → ℕ
flags_of none = 0
flags_of (some f) = f.f_flags

abbrev pub with_flags : (arg : ℕ) → Option File → Option File
with_flags arg none = none
with_flags arg (some f) = some (record f {
  f_flags = bit_or (bit_and f.f_flags (complement 32 status_flags)) (bit_and arg status_flags);
})

-- F_SETFD
unfoldable pub set_fd_flags : Files → (fd arg : ℕ) → Ret × Files
set_fd_flags s fd arg =
    if not (bit_and arg (complement 64 1) == 0)
    then (err einval, s)
    else (ok 0, mark (not (bit_and arg 1 == 0)) s fd)

-- The `switch` on the command, for the open file `p` at `fd`.
unfoldable pub fcntl_of : Files → (p fd cmd arg : ℕ) → Ret × Files
fcntl_of s p fd cmd arg =
    if cmd == 0
    then dupfd s p arg false
    else if cmd == 0x406
    then dupfd s p arg true
    else if cmd == 1
    then (ok (if bit_and s.close_on_exec (2 ^ fd) == 0 then 0 else 1), s)
    else if cmd == 2
    then set_fd_flags s fd arg
    else if cmd == 3
    then (ok (flags_of (s.file p)), s)
    else if cmd == 4
    then (ok 0, record s { file = update s.file p (with_flags arg (s.file p)) })
    else (err einval, s)

unfoldable pub ksys_fcntl : Files → (fd cmd arg : ℕ) → Ret × Files
ksys_fcntl s fd cmd arg = elim (lookup_fd s fd) as (λ _. Ret × Files) [
  | none ↦ (err ebadf, s)
  | some p ↦ fcntl_of s p fd cmd arg
]
