-- ===== src/Fs/Pipe/Poll.antt =====
-- The poll functions of fs/pipe.c against its reads and writes.
use mini_os.Prelude.{
  ℕ, ◌≡◌, refl, Bool, true, false, not, ◌||◌, List, arith, ltb, ◌==◌, Bool-cases, inl, inr,
}
use mini_os.Kernel.Task.{eagain}
use mini_os.Fs.Pipe.{
  Pipe, pipe_size, Transfer, failed, waits, held, pipe_read, pipe_write, pipe_read_poll,
  pipe_write_poll,
}
use mini_os.Fs.Pipe.Queue.{PipeValid}

-- The pass neither moved bytes nor failed for good.
abbrev pub would_block : Transfer → Bool
would_block waits = true
would_block (failed eagain) = true
would_block _ = false

-- With no signal pending, a pass of a read would block, or fails with EAGAIN, exactly if the poll
-- of that end reports neither input nor a hang-up.
pub would_block-pipe_read :
    (p : Pipe) (nonblock : Bool) (count : ℕ)
    → would_block (pipe_read p nonblock false count).0
      ≡ not ((pipe_read_poll p).input || (pipe_read_poll p).hangup)
unfolding pipe_read pipe_read_poll
would_block-pipe_read p nonblock count = elim (Bool-cases (p.len == 0)) [
  | inr e ↦ rw e
  | inl e ↦ elim (Bool-cases (p.writers == 0)) [
    | inl f ↦ rw (e, f)
    | inr f ↦ rw (e, f) (either nonblock)
  ]
]
  where
    either : (b : Bool) → would_block (held b false) ≡ true
    either true = refl
    either false = refl

-- With no signal pending, a pass of a write to a valid pipe would block, or fails with EAGAIN,
-- exactly if the poll of that end reports neither room nor an error.
would_block-pipe_write :
    {p : Pipe} (nonblock : Bool) (bytes : List ℕ)
    → PipeValid p
    → would_block (pipe_write p nonblock false bytes).0
      ≡ not ((pipe_write_poll p).output || (pipe_write_poll p).error)
unfolding pipe_write pipe_write_poll
would_block-pipe_write {p} nonblock bytes v = elim (Bool-cases (p.readers == 0)) [
  | inl e ↦ rw e
  | inr e ↦ elim (Bool-cases (p.len == pipe_size)) [
    | inl f ↦
        let full : ltb p.len pipe_size ≡ false = ground arith in rw (e, f, full) (either nonblock)
    | inr f ↦ let room : ltb p.len pipe_size ≡ true = ground (arith, v.len) in rw (e, f, room)
  ]
]
  where
    either : (b : Bool) → would_block (held b false) ≡ true
    either true = refl
    either false = refl
