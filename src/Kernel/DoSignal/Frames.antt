-- ===== src/Kernel/DoSignal/Frames.antt =====
-- `setup_signal_frame`, `handle_signal` and `ksys_rt_sigreturn` of kernel/signal.c: what a handler's
-- frame keeps, and what the return from the handler puts back.
use mini_os.Prelude.{
  ℕ, ◌+◌, ◌-◌, ◌*◌, ◌/◌, ◌%◌, ◌≤◌, ◌<◌, ◌≡◌, ◌∙◌, Bool, true, false, not, ◌&&◌, ◌||◌, none, some,
  refl, sym, ap, arith, ltb, ◌==◌, if◌then◌else◌, Bool-cases, inl, inr, bit_or, test_bit,
  test_bit-or, test_bit-pow,
}
use mini_os.Kernel.Task.{SigAction, Task}
use mini_os.Kernel.Signal.{sig_bit, sig_unblockable, clear_bits}
use mini_os.Kernel.Signal.Mask.{unblockable}
use mini_os.Kernel.SignalCalls.Masks.{test_bit-opened}
use mini_os.Kernel.DoSignal.{
  Regs, SignalFrame, frame_size, flag, sa_nodefer, setup_signal_frame, frame_mask, handler_mask,
  handle_signal, sigreturn,
}

-- What a chain of four checks returns, returns it past them all.
past_checks :
    {A : Type 0} (a b c d : Bool) (x y : A)
    → (if a then none else if b then none else if c then none else if d then none else some x)
      ≡ some y
    → (b ≡ false) × (x ≡ y)
past_checks true b c d x y e = absurd (ground arith)
past_checks false true c d x y e = absurd (ground arith)
past_checks false false true d x y e = absurd (ground arith)
past_checks false false false true x y e = absurd (ground arith)
past_checks false false false false x y e = (refl, ap (λ o. elim o [ none ↦ x | some z ↦ z ]) e)

-- Where a frame is set up, it lies aligned below the user's stack pointer and fits there, and
-- `sigreturn` from it, at the end of the handler, puts back the registers, the stack pointer and,
-- bit by bit, the mask that the frame keeps, less SIGKILL and SIGSTOP.
pub sigreturn-setup_signal_frame :
    (frame_ok copy_ok : ℕ → Bool) (r : Task) (regs handler_regs : Regs) (user_sp sig sp i : ℕ)
    (ka : SigAction) (frame : SignalFrame)
    → setup_signal_frame frame_ok copy_ok regs user_sp sig ka (frame_mask r)
      ≡ some (sp, frame, handler_regs)
    → i < 64
    → let back = sigreturn (handle_signal r sig ka) frame in
      (sp % 16 ≡ 0)
      × (sp + frame_size ≤ user_sp)
      × (back.1 ≡ user_sp)
      × (back.2 ≡ regs)
      × (test_bit back.0.blocked i ≡ (test_bit (frame_mask r) i && not (unblockable i)))
unfolding setup_signal_frame sigreturn
sigreturn-setup_signal_frame frame_ok copy_ok r regs hregs user_sp sig sp i ka frame e l =
    let at = (user_sp - frame_size) / 16 * 16 in
    let kept : SignalFrame = record { regs = regs; user_sp = user_sp; blocked = frame_mask r } in
    let hand : Regs = record { x0 = sig; x30 = ka.sa_restorer; elr_el1 = ka.sa_handler } in
    let (b, same) =
      past_checks (ka.sa_restorer == 0) (ltb user_sp frame_size || not (user_sp % 16 == 0))
        (not (frame_ok at)) (not (copy_ok at)) (at, kept, hand) (sp, frame, hregs) e in
    let at_sp : at ≡ sp = ap (λ p. p.0) same in
    let kept_frame : kept ≡ frame = ap (λ p. p.1) same in
    let bits : test_bit (clear_bits frame.blocked sig_unblockable) i
        ≡ (test_bit frame.blocked i && not (unblockable i)) =
      test_bit-opened frame.blocked i l in
    (
      omega arith,
      ground arith,
      ap SignalFrame.user_sp (sym kept_frame),
      ap SignalFrame.regs (sym kept_frame),
      bits ∙ ap (λ f. test_bit (SignalFrame.blocked f) i && not (unblockable i)) (sym kept_frame),
    )

-- While a handler runs, SIGKILL and SIGSTOP stay out of the mask; any other signal is blocked if it
-- was before, if the action's mask has it, or if it is the one handled and SA_NODEFER is off.
pub handle_signal-mask :
    (r : Task) (sig i : ℕ) (ka : SigAction)
    → i < 64
    → test_bit (handle_signal r sig ka).blocked i ≡ (
        not (unblockable i)
        && (test_bit r.blocked i
            || test_bit ka.sa_mask i
            || (not (flag ka.sa_flags sa_nodefer) && sig - 1 == i)))
unfolding handle_signal handler_mask
handle_signal-mask r sig i ka l = elim (Bool-cases (flag ka.sa_flags sa_nodefer)) [
  | inl y ↦ rw y (
      test_bit-opened (bit_or r.blocked ka.sa_mask) i l
      ∙ ground (arith, test_bit-or r.blocked ka.sa_mask i))
  | inr y ↦ rw y (
      test_bit-opened (bit_or (bit_or r.blocked ka.sa_mask) (sig_bit sig)) i l
      ∙ ground (
        arith,
        test_bit-or (bit_or r.blocked ka.sa_mask) (sig_bit sig) i,
        test_bit-or r.blocked ka.sa_mask i,
        test_bit-pow (sig - 1) i,
      ))
]
