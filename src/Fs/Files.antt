-- ===== src/Fs/Files.antt =====
-- fs/open.c and fs/inode.c: inodes, open files and a task's table of descriptors.
-- A pointer to a `struct file` or a `struct inode` is a number. `file p` is `none` where `p` is not
-- allocated; `tables` of the other tasks are not part of the state.
pub mod Count
pub mod Fcntl
pub mod Descriptors
pub mod Calls
pub mod Exec
pub mod Effects
pub mod Inodes
mod Tests
use mini_os.Prelude.{
  ℕ, zero, suc, ◌+◌, ◌-◌, ◌^◌, Bool, true, false, not, ◌&&◌, ◌||◌, Option, none, some, List, ◌∷◌,
  ltb, leb, ◌==◌, if◌then◌else◌, bit_and, bit_or, complement, update,
}
use mini_os.Kernel.Task.{Ret, ok, err, einval, ebadf, emfile}

-- `persistent` is I_PERSISTENT of `i_flags`; `has_free` says that `i_free` is set.
pub record Inode : Type 0 where
  pub i_count : ℕ
  pub nlink : ℕ
  pub persistent : Bool
  pub has_free : Bool

-- `has_release` says that `f_op->release` is set.
pub record File : Type 0 where
  pub refcount : ℕ
  pub inode : Option ℕ
  pub has_release : Bool
  pub f_flags : ℕ

pub data Event : Type 0 where
  released evicted : ℕ → Event

-- One task's `files` and `close_on_exec`, and what they lead to. `events` are the calls of `release`
-- and `i_free`, latest first.
pub record Files : Type 0 where
  pub files : ℕ → Option ℕ
  pub close_on_exec : ℕ
  pub file : ℕ → Option File
  pub inodes : ℕ → Inode
  pub events : List Event

abbrev pub nr_open : ℕ
nr_open = 32

abbrev pub uart_file : ℕ
uart_file = 0

unfoldable pub iget : Files → Option ℕ → Files
iget s none = s
iget s (some i) =
    let inode = s.inodes i in
    record s { inodes = update s.inodes i (record inode { i_count = inode.i_count + 1 }) }

unfoldable pub inode_maybe_evict : Files → ℕ → Files
inode_maybe_evict s i =
    let inode = s.inodes i in
    if not (inode.i_count == 0)
    then s
    else if inode.persistent && not (inode.nlink == 0)
    then s
    else if inode.has_free
    then record s { events = evicted i ∷ s.events }
    else s

unfoldable pub drop_nlink : Files → Option ℕ → Files
drop_nlink s none = s
drop_nlink s (some i) =
    let inode = s.inodes i in
    inode_maybe_evict
      (record s { inodes = update s.inodes i (record inode { nlink = inode.nlink - 1 }) }) i

unfoldable pub clear_nlink : Files → Option ℕ → Files
clear_nlink s none = s
clear_nlink s (some i) =
    let inode = s.inodes i in
    inode_maybe_evict (record s { inodes = update s.inodes i (record inode { nlink = 0 }) }) i

unfoldable pub iput : Files → Option ℕ → Files
iput s none = s
iput s (some i) =
    let inode = s.inodes i in
    if inode.i_count == 0
    then s
    else inode_maybe_evict
        (record s { inodes = update s.inodes i (record inode { i_count = inode.i_count - 1 }) }) i

unfoldable pub get_file : Files → ℕ → Files
get_file s p = elim (s.file p) [
  | none ↦ s
  | some f ↦ record s { file = update s.file p (some (record f { refcount = f.refcount + 1 })) }
]

-- The end of `fput`, when no reference is left.
unfoldable pub free_file : Files → ℕ → File → Files
free_file s p f =
    let told = record s { events = if f.has_release then released p ∷ s.events else s.events } in
    let put = iput told f.inode in
    let rest : Option File =
      if p == uart_file then some (record f { refcount = 0; inode = none }) else none in
    record put { file = update put.file p rest }

unfoldable pub fput : Files → ℕ → Files
fput s p = elim (s.file p) [
  | none ↦ s
  | some f ↦
      if ltb 0 (f.refcount - 1)
      then record s { file = update s.file p (some (record f { refcount = f.refcount - 1 })) }
      else free_file s p f
]

-- `new` is what `kmalloc` returns.
unfoldable pub alloc_file : Option ℕ → Files → Option ℕ × Files
alloc_file none s = (none, s)
alloc_file (some p) s = (
  some p,
  record s {
    file =
        update s.file p
          (some (record { refcount = 1; inode = none; has_release = false; f_flags = 0 }));
  },
)

unfoldable pub set_cloexec : Files → (fd : ℕ) → Files
set_cloexec s fd = record s { close_on_exec = bit_or s.close_on_exec (2 ^ fd) }

unfoldable pub clear_cloexec : Files → (fd : ℕ) → Files
clear_cloexec s fd = record s { close_on_exec = bit_and s.close_on_exec (complement 64 (2 ^ fd)) }

abbrev pub set_slot : Files → (fd : ℕ) → Option ℕ → Files
set_slot s fd slot = record s { files = update s.files fd slot }

-- The loop of `install_fd` and `install_fd_min` over the `n` descriptors from `fd` on.
unfoldable pub install_from : (n fd : ℕ) → Files → (p : ℕ) → Ret × Files
install_from zero fd s p = (err emfile, s)
install_from (suc n) fd s p =
    let next = install_from n (fd + 1) s p in
    elim (s.files fd) [ none ↦ (ok fd, clear_cloexec (set_slot s fd (some p)) fd) | some q ↦ next ]

unfoldable pub install_fd : Files → ℕ → Ret × Files
install_fd s p = install_from nr_open 0 s p

unfoldable pub install_fd_min : Files → (p minfd : ℕ) → Ret × Files
install_fd_min s p minfd =
    if leb nr_open minfd then (err einval, s) else install_from (nr_open - minfd) minfd s p

-- `task->files[fd]` for a number that a user gave; `none` is -EBADF.
abbrev pub lookup_fd : Files → ℕ → Option ℕ
lookup_fd s fd = if leb nr_open fd then none else s.files fd

unfoldable pub close_fd : Files → ℕ → Ret × Files
close_fd s fd = elim (lookup_fd s fd) as (λ _. Ret × Files) [
  | none ↦ (err ebadf, s)
  | some p ↦ (ok 0, fput (set_slot s fd none) p)
]

-- One turn of the loop of `close_on_exec_fds`.
unfoldable pub close_marked : Files → ℕ → Files
close_marked s i =
    let closed = elim (s.files i) as (λ _. Files) [
      | none ↦ s
      | some p ↦ set_slot (fput s p) i none
    ] in
    if bit_and s.close_on_exec (2 ^ i) == 0 then s else clear_cloexec closed i

-- The loop up to `n`.
unfoldable pub close_marked_below : (n : ℕ) → Files → Files
close_marked_below zero s = s
close_marked_below (suc n) s = close_marked (close_marked_below n s) n

unfoldable pub close_on_exec_fds : Files → Files
close_on_exec_fds s = close_marked_below nr_open s

-- Where no descriptor is free, `fput` takes back what `get_file` gave.
unfoldable pub installed : (p : ℕ) → Ret × Files → Ret × Files
installed p (ok fd, s) = (ok fd, s)
installed p (err e, s) = (err e, fput s p)

unfoldable pub ksys_dup : Files → (oldfd : ℕ) → Ret × Files
ksys_dup s oldfd = elim (lookup_fd s oldfd) as (λ _. Ret × Files) [
  | none ↦ (err ebadf, s)
  | some p ↦ installed p (install_fd (get_file s p) p)
]

abbrev pub o_cloexec : ℕ
o_cloexec = 2 ^ 19

abbrev pub mark : (flag : Bool) → Files → (fd : ℕ) → Files
mark flag s fd = if flag then set_cloexec s fd else clear_cloexec s fd

-- `if (old_new) fput(old_new)`
abbrev pub fput_old : Option ℕ → Files → Files
fput_old none s = s
fput_old (some q) s = fput s q

unfoldable pub ksys_dup3 : Files → (oldfd newfd flags : ℕ) → Ret × Files
ksys_dup3 s oldfd newfd flags =
    if not (bit_and flags (complement 32 o_cloexec) == 0)
    then (err einval, s)
    else if oldfd == newfd
    then (err einval, s)
    else if leb nr_open oldfd || leb nr_open newfd
    then (err ebadf, s)
    else elim (s.files oldfd) as (λ _. Ret × Files) [
      | none ↦ (err ebadf, s)
      | some p ↦ (
        ok newfd,
        mark (not (bit_and flags o_cloexec == 0))
            (fput_old (s.files newfd) (set_slot (get_file s p) newfd (some p))) newfd,
      )
    ]

unfoldable pub ksys_dup2 : Files → (oldfd newfd : ℕ) → Ret × Files
ksys_dup2 s oldfd newfd =
    if oldfd == newfd
    then elim (lookup_fd s oldfd) as (λ _. Ret × Files) [
      | none ↦ (err ebadf, s)
      | some p ↦ (ok newfd, s)
    ]
    else ksys_dup3 s oldfd newfd 0
