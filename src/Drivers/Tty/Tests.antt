-- ===== src/Drivers/Tty/Tests.antt =====
-- The theorems on drivers/tty/tty.c at a terminal with a short line in its ring.
use mini_os.Prelude.{◌≡◌, true, false, none, [], ◌∷◌, refl, arith, ◌==◌, if◌then◌else◌}
use mini_os.Kernel.Sample.{system, system-OnCpu}
use mini_os.Kernel.Wait.{WaitQueue}
use mini_os.Drivers.Tty.{Tty, Console, tty_receive_char, tty_read_now, tty_read_ready, tty_setpgrp}
use mini_os.Drivers.Tty.Content.{TtyValid, IsReceived, tty_receive_char-IsReceived}
use mini_os.Drivers.Tty.Line.{
  IsTtyRead, IsStuck, receive_all, tty_read_now-IsTtyRead, receive_all-stuck,
}
use mini_os.Drivers.Tty.Session.{IsForeground, tty_setpgrp-IsForeground}

abbrev nobody : WaitQueue
nobody = record { entries = []; waiter = λ e. none }

-- `ab` and a newline, round the end of the ring.
abbrev line : Tty
line = record {
  rx_buf = λ i. if i == 254 then 97 else if i == 255 then 98 else 10;
  rx_head = 1;
  rx_tail = 254;
  session_id = 10;
  foreground_pgid = 10;
  echo = true;
  canonical = true;
  isig = true;
}

line-TtyValid : TtyValid line
line-TtyValid = record { head = omega arith; tail = omega arith }

abbrev console : Tty → Console
console t = record { tty = t; read_wait = nobody; kernel = system 0; out = [] }

tty_receive_char-IsReceived_example :
    IsReceived (console line) 10 (tty_receive_char (console line) 13)
tty_receive_char-IsReceived_example =
    tty_receive_char-IsReceived (console line) 13 line-TtyValid (system-OnCpu 0 (omega arith))

tty_read_now-IsTtyRead_example : IsTtyRead line 100 (tty_read_now line 100)
tty_read_now-IsTtyRead_example = tty_read_now-IsTtyRead line 100 line-TtyValid

-- 255 times `a`.
abbrev stuck : Tty
stuck = record line { rx_buf = λ i. 97; rx_head = 255; rx_tail = 0 }

stuck-IsStuck : IsStuck stuck
stuck-IsStuck = record {
  valid = record { head = omega arith; tail = omega arith };
  canonical = refl;
  full = refl;
  no_line = refl;
}

receive_all-stuck_example : tty_read_ready (receive_all (console stuck) (10 ∷ [])).tty ≡ false
receive_all-stuck_example = receive_all-stuck (console stuck) (10 ∷ []) stuck-IsStuck

tty_setpgrp-IsForeground_example : IsForeground (console line) 10 (tty_setpgrp (console line) 10)
tty_setpgrp-IsForeground_example = tty_setpgrp-IsForeground (console line) 10
