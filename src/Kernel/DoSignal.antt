-- ===== src/Kernel/DoSignal.antt =====
-- `do_signal` of kernel/signal.c and what it calls to deliver a signal to the current task.
pub mod Choice
pub mod Count
pub mod Rounds
pub mod Frames
mod Tests
use mini_os.Prelude.{
  ℕ, zero, suc, ◌+◌, ◌-◌, ◌*◌, ◌/◌, ◌%◌, ◌^◌, Bool, true, false, not, ◌&&◌, ◌||◌, Option, none,
  some, ltb, leb, ◌==◌, if◌then◌else◌, update, bit_and, bit_or, test_bit,
}
use mini_os.Kernel.Task.{SigAction, Task, Kernel, set_task}
use mini_os.Kernel.Signal.{
  sig_bit, sigkill, sigstop, sigchld, sigcont, sig_unblockable, sig_kernel_stop, clear_bits,
}

-- The loop `for (sig = 1; sig < _NSIG_BPW; sig++)`, with the rounds left.
unfoldable pub scan : ℕ → ℕ → ℕ → ℕ
scan zero ready sig = 0
scan (suc rounds) ready sig =
    let rest = scan rounds ready (suc sig) in
    if not (bit_and ready (sig_bit sig) == 0) then sig else rest

unfoldable pub next_pending_signal : ℕ → ℕ → ℕ
unfolding scan
next_pending_signal pending blocked =
    let ready = clear_bits pending (clear_bits blocked sig_unblockable) in
    if not (bit_and ready (sig_bit sigkill) == 0)
    then sigkill
    else if not (bit_and ready (sig_bit sigstop) == 0)
    then sigstop
    else scan 63 ready 1

abbrev pub sa_restart : ℕ
sa_restart = 0x10000000

abbrev pub sa_nodefer : ℕ
sa_nodefer = 0x40000000

abbrev pub sa_resethand : ℕ
sa_resethand = 0x80000000

abbrev pub flag : ℕ → ℕ → Bool
flag flags f = not (bit_and flags f == 0)

-- What a round of `do_signal` comes to: no signal is left, the task exits with a code, stops (the
-- loop goes on when it is continued), shuts the system down as init, or runs a handler.
-- `out_of_rounds` is the model's.
pub data Delivery : Type 0 where
  nothing out_of_rounds : Delivery
  exits stops shuts_down : ℕ → Delivery
  handles : ℕ → SigAction → Delivery

-- The default action of a signal other than SIGKILL and SIGSTOP; `none` is to ignore it.
unfoldable pub default_action : ℕ → ℕ → Option Delivery
default_action pid sig =
    if sig_kernel_stop sig
    then some (stops sig)
    else if pid == 1 && (sig == 10 || sig == 12 || sig == 15)
    then some (shuts_down sig)
    else if sig == sigchld || sig == sigcont || sig == 23 || sig == 28
    then none
    else some (exits (sig % 128))

-- By the disposition of the signal: 1 is SIG_IGN, 0 is SIG_DFL.
unfoldable pub disposition : Task → ℕ → Option Delivery
disposition r sig =
    if sig == sigkill
    then some (exits sigkill)
    else if sig == sigstop
    then some (stops sigstop)
    else if (r.actions sig).sa_handler == 1
    then none
    else if (r.actions sig).sa_handler == 0
    then default_action r.pid sig
    else some (handles sig (r.actions sig))

-- SA_RESETHAND puts the default back before the handler runs.
unfoldable pub reset_hand : Task → Delivery → Task
reset_hand r (handles sig ka) =
    if flag ka.sa_flags sa_resethand
    then record r { actions = update r.actions sig (record (r.actions sig) { sa_handler = 0 }) }
    else r
reset_hand r _ = r

-- The loop of `do_signal`, on the task's fields, up to the first signal that is not ignored.
unfoldable pub deliver : ℕ → Task → Delivery × Task
unfolding next_pending_signal
deliver zero r = (out_of_rounds, r)
deliver (suc rounds) r =
    let sig = next_pending_signal r.pending r.blocked in
    let taken : Task = record r { pending = clear_bits r.pending (sig_bit sig) } in
    let rest = deliver rounds taken in
    if sig == 0
    then (nothing, r)
    else elim (disposition taken sig) [ none ↦ rest | some d ↦ (d, reset_hand taken d) ]

-- No more than 63 signals can be pending at once.
unfoldable pub do_signal : Task → Delivery × Task
do_signal r = if not r.is_user then (nothing, r) else deliver 64 r

-- The registers that signal delivery changes.
pub record Regs : Type 0 where
  pub x0 : ℕ
  pub x30 : ℕ
  pub elr_el1 : ℕ

abbrev pub word : ℕ
word = 2 ^ 64

-- -ERESTARTSYS and -EINTR as a register holds them.
abbrev pub minus_erestartsys : ℕ
minus_erestartsys = word - 512

abbrev pub minus_eintr : ℕ
minus_eintr = word - 4

unfoldable pub apply_syscall_restart : Regs → Task → Bool → Regs
apply_syscall_restart regs r restart =
    if not r.in_syscall || not (regs.x0 == minus_erestartsys)
    then regs
    else if restart
    then record regs { x0 = r.orig_x0; elr_el1 = (regs.elr_el1 + word - 4) % word }
    else record regs { x0 = minus_eintr }

-- `sizeof(struct signal_frame)`: 33 registers, the stack pointer and the mask.
abbrev pub frame_size : ℕ
frame_size = 280

-- What is pushed on the user's stack.
pub record SignalFrame : Type 0 where
  pub regs : Regs
  pub user_sp : ℕ
  pub blocked : ℕ

module _ (signal_frame_ok : ℕ → Bool) (copy_ok : ℕ → Bool) where
  -- The stack that the frame goes to, and the frame; `none` is an error. `signal_frame_ok` looks the
  -- address up in the memory map, `copy_ok` says whether the copy to it succeeds.
  unfoldable pub setup_signal_frame :
      Regs → (user_sp sig : ℕ) → SigAction → ℕ → Option (ℕ × SignalFrame × Regs)
  setup_signal_frame regs user_sp sig ka old_blocked =
      let sp = (user_sp - frame_size) / 16 * 16 in
      if ka.sa_restorer == 0
      then none
      else if ltb user_sp frame_size || not (user_sp % 16 == 0)
      then none
      else if not (signal_frame_ok sp)
      then none
      else if not (copy_ok sp)
      then none
      else some (
        sp,
        record { regs = regs; user_sp = user_sp; blocked = old_blocked },
        record { x0 = sig; x30 = ka.sa_restorer; elr_el1 = ka.sa_handler },
      )

-- The masks of `handle_signal`: the one that the frame keeps, and the handler's.
unfoldable pub frame_mask : Task → ℕ
frame_mask r = if r.restore_sigmask then r.saved_blocked else r.blocked

unfoldable pub handler_mask : Task → ℕ → SigAction → ℕ
handler_mask r sig ka =
    let added = bit_or r.blocked ka.sa_mask in
    clear_bits (if not (flag ka.sa_flags sa_nodefer) then bit_or added (sig_bit sig) else added)
      sig_unblockable

-- The task once the handler's frame is set up.
unfoldable pub handle_signal : Task → ℕ → SigAction → Task
handle_signal r sig ka = record r { restore_sigmask = false; blocked = handler_mask r sig ka }

-- `ksys_rt_sigreturn` with the frame that it reads back.
unfoldable pub sigreturn : Task → SignalFrame → Task × ℕ × Regs
sigreturn r frame =
    (record r { blocked = clear_bits frame.blocked sig_unblockable }, frame.user_sp, frame.regs)
