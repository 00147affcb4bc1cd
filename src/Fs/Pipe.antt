-- ===== src/Fs/Pipe.antt =====
-- fs/pipe.c: the ring of bytes of a pipe, and the passes of its reads and writes.
pub mod Slice
pub mod Queue
pub mod Poll
mod Tests
use mini_os.Prelude.{
  ℕ, zero, suc, ◌+◌, ◌-◌, Bool, true, false, not, ◌&&◌, Option, none, some, List, [], ◌∷◌, ltb, leb,
  ◌==◌, if◌then◌else◌, update, length, take,
}
use mini_os.Kernel.Task.{Errno, eagain, epipe, erestartsys}

abbrev pub pipe_size : ℕ
pipe_size = 1024

-- `struct pipe`, less the queues of waiters. The indices and `len` are at most 1024, and the counts of
-- readers and writers are not negative, so that the C types do not wrap.
pub record Pipe : Type 0 where
  pub head : ℕ
  pub tail : ℕ
  pub len : ℕ
  pub readers : ℕ
  pub writers : ℕ
  pub buf : ℕ → ℕ

-- `i++; if (i == PIPE_SIZE) i = 0;`
abbrev pub step : ℕ → ℕ
step i = if i + 1 == pipe_size then 0 else i + 1

-- The loop of `pipe_read`.
unfoldable pub copy_out : ℕ → Pipe → List ℕ × Pipe
copy_out zero p = ([], p)
copy_out (suc n) p =
    let (bytes, p') = copy_out n (record p { tail = step p.tail }) in (p.buf p.tail ∷ bytes, p')

-- The loop of `pipe_write`, over the bytes that fit.
unfoldable pub copy_in : List ℕ → Pipe → Pipe
copy_in [] p = p
copy_in (b ∷ bs) p = copy_in bs (record p { buf = update p.buf p.head b; head = step p.head })

-- What a pass of a read or a write comes to. After `waits` the caller sleeps; then it fails with
-- ERESTARTSYS if a signal is pending, and else makes another pass.
pub data Transfer : Type 0 where
  got : List ℕ → Transfer
  wrote : ℕ → Transfer
  failed : Errno → Transfer
  waits : Transfer

-- An empty or full pipe: whether the file has O_NONBLOCK, and whether a signal is pending.
abbrev pub held : Bool → Bool → Transfer
held nonblock pending =
    if nonblock then failed eagain else if pending then failed erestartsys else waits

unfoldable pub pipe_read : Pipe → (nonblock pending : Bool) → ℕ → Transfer × Pipe
unfolding copy_out
pipe_read p nonblock pending count =
    let n = if ltb p.len count then p.len else count in
    let (bytes, p') = copy_out n p in
    if p.len == 0
    then (if p.writers == 0 then (got [], p) else (held nonblock pending, p))
    else (got bytes, record p' { len = p.len - n })

unfoldable pub pipe_write : Pipe → (nonblock pending : Bool) → List ℕ → Transfer × Pipe
unfolding copy_in
pipe_write p nonblock pending bytes =
    let count = length bytes in
    let n = if ltb (pipe_size - p.len) count then pipe_size - p.len else count in
    if p.readers == 0
    then (failed epipe, p)
    else if p.len == pipe_size
    then (held nonblock pending, p)
    else (wrote n, record (copy_in (take n bytes) p) { len = p.len + n })

-- `pipe_release` of one end: the pipe, or `none` where the last end is closed and the pipe freed.
unfoldable pub pipe_release : Pipe → (read_end : Bool) → Option Pipe
pipe_release p read_end =
    let left : Pipe =
      if read_end
      then record p { readers = p.readers - 1 }
      else record p { writers = p.writers - 1 } in
    if left.readers == 0 && left.writers == 0 then none else some left

-- The bits of include/linux/poll.h that a pipe reports.
pub record Ready : Type 0 where
  pub input : Bool
  pub output : Bool
  pub hangup : Bool
  pub error : Bool

unfoldable pub pipe_read_poll : Pipe → Ready
pipe_read_poll p = record {
  input = not (p.len == 0);
  output = false;
  hangup = p.writers == 0;
  error = false;
}

unfoldable pub pipe_write_poll : Pipe → Ready
pipe_write_poll p = record {
  input = false;
  output = not (p.readers == 0) && ltb p.len pipe_size;
  hangup = false;
  error = p.readers == 0;
}
