-- ===== src/Drivers/Tty.antt =====
-- drivers/tty/tty.c: the terminal's ring of characters, its modes, and its session.
-- `tty0.lock` makes each stretch under it one step. `out` are the characters sent to the serial port
-- as echo, latest first.
pub mod Content
pub mod Line
pub mod Session
mod Tests
use mini_os.Prelude.{
  ℕ, zero, suc, ◌+◌, ◌-◌, ◌%◌, Bool, true, false, not, ◌&&◌, ◌||◌, Option, none, some, List, [],
  ◌∷◌, ltb, leb, ◌==◌, if◌then◌else◌, update, bit_and,
}
use mini_os.Prelude.Int.{ℤ, pos, negsuc}
use mini_os.Prelude.Ring.{next_place}
use mini_os.Kernel.Task.{
  Ret, ok, err, einval, eperm, esrch, Task, Kernel, current, is_zombie, is_dead,
}
use mini_os.Kernel.SignalCalls.{ksys_kill}
use mini_os.Kernel.Wait.{WaitQueue, wake_up}

abbrev pub tty_rx_size : ℕ
tty_rx_size = 256

pub record Tty : Type 0 where
  pub rx_buf : ℕ → ℕ
  pub rx_head : ℕ
  pub rx_tail : ℕ
  pub session_id : ℕ
  pub foreground_pgid : ℕ
  pub echo : Bool
  pub canonical : Bool
  pub isig : Bool

-- The terminal and what it acts on.
pub record Console : Type 0 where
  pub tty : Tty
  pub read_wait : WaitQueue
  pub kernel : Kernel
  pub out : List ℕ

abbrev pub tty_rx_next : ℕ → ℕ
tty_rx_next i = next_place tty_rx_size i

unfoldable pub tty_rx_count_locked : Tty → ℕ
tty_rx_count_locked t =
    if leb t.rx_tail t.rx_head then t.rx_head - t.rx_tail else tty_rx_size - t.rx_tail + t.rx_head

abbrev pub newline : ℕ
newline = 10

-- The loop of `tty_rx_line_length_locked`; a turn for each place of the ring is enough fuel.
unfoldable pub line_length_from : (fuel : ℕ) → Tty → (n i : ℕ) → ℕ
line_length_from zero t n i = 0
line_length_from (suc fuel) t n i =
    let rest = line_length_from fuel t (n + 1) (tty_rx_next i) in
    if i == t.rx_head then 0 else if t.rx_buf i == newline then n + 1 else rest

unfoldable pub tty_rx_line_length_locked : Tty → ℕ
tty_rx_line_length_locked t = line_length_from tty_rx_size t 0 t.rx_tail

unfoldable pub tty_read_ready : Tty → Bool
tty_read_ready t =
    if t.canonical then ltb 0 (tty_rx_line_length_locked t) else ltb 0 (tty_rx_count_locked t)

abbrev pub icanon : ℕ
icanon = 2

-- `tty_apply_termios`, of the field `c_lflag`.
unfoldable pub tty_apply_termios : Console → (c_lflag : ℕ) → Console
tty_apply_termios s c_lflag = record s {
  tty = record s.tty {
    canonical = not (bit_and c_lflag icanon == 0);
    echo = not (bit_and c_lflag 8 == 0);
    isig = not (bit_and c_lflag 1 == 0);
  };
  kernel = wake_up s.read_wait s.kernel;
}

-- `ksys_kill(-(long)pgid, sig)`
abbrev pub negated : ℕ → ℤ
negated zero = pos 0
negated (suc n) = negsuc n

unfoldable pub signal_foreground : Console → (sig : ℕ) → Console
signal_foreground s sig =
    if s.tty.isig && not (s.tty.foreground_pgid == 0)
    then record s { kernel = (ksys_kill s.kernel (negated s.tty.foreground_pgid) (pos sig)).1 }
    else s

-- The character into the ring, unless it is full.
unfoldable pub rx_put : Tty → ℕ → Tty
rx_put t c =
    if tty_rx_next t.rx_head == t.rx_tail
    then t
    else record t { rx_buf = update t.rx_buf t.rx_head c; rx_head = tty_rx_next t.rx_head }

unfoldable pub receive_plain : Console → ℕ → Console
receive_plain s c = record s {
  tty = rx_put s.tty c;
  out = if s.tty.echo then c ∷ s.out else s.out;
  kernel = wake_up s.read_wait s.kernel;
}

abbrev pub sigint : ℕ
sigint = 2

abbrev pub sigtstp : ℕ
sigtstp = 20

-- `if (c == '\r') c = '\n';`
abbrev pub unreturn : ℕ → ℕ
unreturn c = if c == 13 then newline else c

unfoldable pub tty_receive_char : Console → ℕ → Console
tty_receive_char s c =
    if unreturn c == 0x03
    then signal_foreground s sigint
    else if unreturn c == 0x1a
    then signal_foreground s sigtstp
    else receive_plain s (unreturn c)

-- The loop that copies out of the ring.
unfoldable pub copy_rx : (n : ℕ) → Tty → List ℕ × Tty
copy_rx zero t = ([], t)
copy_rx (suc n) t =
    let (rest, t') = copy_rx n (record t { rx_tail = tty_rx_next t.rx_tail }) in
    (t.rx_buf t.rx_tail ∷ rest, t')

-- `tty_read` once the wait is over.
unfoldable pub tty_read_now : Tty → (count : ℕ) → List ℕ × Tty
tty_read_now t count =
    let n = if t.canonical then tty_rx_line_length_locked t else tty_rx_count_locked t in
    if not (tty_read_ready t) then ([], t) else copy_rx (if ltb count n then count else n) t

abbrev pub differs : (session sid : ℕ) → Bool
differs session sid = not (session == 0) && not (sid == session)

-- The loop over all tasks of `tty_setpgrp`: `none` is -EPERM, else whether the group was found.
unfoldable pub setpgrp_scan : Kernel → (pgid session : ℕ) → List ℕ → Option Bool
setpgrp_scan k pgid session [] = some false
setpgrp_scan k pgid session (u ∷ us) =
    let task = k.task u in
    let rest = setpgrp_scan k pgid session us in
    if not task.is_user || is_zombie task.state || is_dead task.state
    then rest
    else if not (task.pgid == pgid)
    then rest
    else if differs session task.sid
    then none
    else elim rest [ none ↦ none | some found ↦ some true ]

-- `none` is the error -ENOTTY, which has no name among the errors of the model. A `pgid` that is not
-- positive is 0.
unfoldable pub tty_setpgrp : Console → (pgid : ℕ) → Option Ret × Console
tty_setpgrp s pgid =
    let session = s.tty.session_id in
    let scan = setpgrp_scan s.kernel pgid session s.kernel.all_tasks in
    let set : Console = record s { tty = record s.tty { foreground_pgid = pgid } } in
    if pgid == 0
    then (some (err einval), s)
    else if differs session (s.kernel.task (current s.kernel)).sid
    then (none, s)
    else elim scan as (λ _. Option Ret × Console) [
      | none ↦ (some (err eperm), s)
      | some found ↦ if found then (some (ok 0), set) else (some (err esrch), s)
    ]

unfoldable pub tty_sets_controlling : Console → Option Ret × Console
tty_sets_controlling s =
    let task = s.kernel.task (current s.kernel) in
    if not task.is_user then (none, s) else if not (task.sid == task.pid) then (none, s) else (
      some (ok 0),
      record s { tty = record s.tty { session_id = task.sid; foreground_pgid = task.pgid } },
    )

unfoldable pub tty_release_controlling : Console → Option Ret × Console
tty_release_controlling s =
    let task = s.kernel.task (current s.kernel) in
    if not task.is_user
    then (none, s)
    else if not (s.tty.session_id == task.sid)
    then (none, s)
    else (some (ok 0), record s { tty = record s.tty { session_id = 0; foreground_pgid = 0 } })
