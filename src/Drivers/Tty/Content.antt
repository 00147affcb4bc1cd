-- ===== src/Drivers/Tty/Content.antt =====
-- drivers/tty/tty.c: the ring as a list of characters, oldest first.
use mini_os.Prelude.{
  ℕ, zero, suc, ◌+◌, ◌-◌, ◌≤◌, ◌<◌, ◌≡◌, ◌∙◌, Bool, true, false, not, ◌&&◌, ◌||◌, List, [], ◌∷◌,
  ◌++◌, refl, ap, arith, ◌==◌, if◌then◌else◌, update, length, Bool-cases, inl, inr,
}
use mini_os.Prelude.Int.{pos}
use mini_os.Prelude.Ring.{run, around, distance, run-snoc, run-update}
use mini_os.Kernel.Signal.Send.{OnCpu}
use mini_os.Kernel.SignalCalls.Kill.{ksys_kill-OnCpu}
use mini_os.Kernel.Wait.Keep.{wake_up-OnCpu}
use mini_os.Drivers.Tty.{
  Tty, Console, tty_rx_size, tty_rx_next, unreturn, signal_foreground, rx_put, receive_plain,
  tty_receive_char, copy_rx, negated, sigint, sigtstp,
}

pub record TtyValid (t : Tty) : Type 0 where
  pub head : t.rx_head < tty_rx_size
  pub tail : t.rx_tail < tty_rx_size

abbrev pub used : Tty → ℕ
used t = distance tty_rx_size t.rx_tail t.rx_head

abbrev pub content : Tty → List ℕ
content t = run tty_rx_size (used t) t.rx_tail t.rx_buf

abbrev pub is_full : Tty → Bool
is_full t = used t == tty_rx_size - 1

rx_put-TtyValid : (t : Tty) (c : ℕ) → TtyValid t → TtyValid (rx_put t c)
unfolding rx_put
rx_put-TtyValid t c v = elim (Bool-cases (tty_rx_next t.rx_head == t.rx_tail)) [
  | inl e ↦ rw e v
  | inr e ↦ rw e (record { head = ground (arith, v.head); tail = v.tail })
]

-- A character that is put in stands at the end, and where the ring is full it is dropped.
pub content-rx_put :
    (t : Tty) (c : ℕ)
    → TtyValid t
    → content (rx_put t c) ≡ (if is_full t then content t else content t ++ c ∷ [])
unfolding rx_put
content-rx_put t c v = elim (Bool-cases (tty_rx_next t.rx_head == t.rx_tail)) [
  | inl e ↦ let full : is_full t ≡ true = ground (arith, v.head, v.tail) in rw (e, full) refl
  | inr e ↦
      let room : is_full t ≡ false = ground (arith, v.head, v.tail) in
      let more : distance tty_rx_size t.rx_tail (tty_rx_next t.rx_head) ≡ suc (used t) =
        ground (arith, v.head, v.tail) in
      let at : around tty_rx_size (t.rx_tail + used t) ≡ t.rx_head =
        ground (arith, v.head, v.tail) in
      rw (e, room, more)
        (run-snoc tty_rx_size (used t) t.rx_tail (update t.rx_buf t.rx_head c) v.tail
            (ground (arith, v.head, v.tail))
          ∙ rw
              (
                at,
                run-update tty_rx_size (used t) t.rx_tail t.rx_head c t.rx_buf v.tail v.head
                    (omega arith),
              )
              (ap (λ b. content t ++ b ∷ []) (ground arith)))
]

-- Taking out `n` characters takes the first `n`.
pub copy_rx_lem :
    (n : ℕ) (t : Tty)
    → TtyValid t
    → n ≤ used t
    → let (bytes, t') = copy_rx n t in
      TtyValid t' × (bytes ++ content t' ≡ content t) × (length bytes ≡ n)
unfolding copy_rx
copy_rx_lem zero t v h = (v, refl, refl)
copy_rx_lem (suc n) t v h =
    let taken : Tty = record t { rx_tail = tty_rx_next t.rx_tail } in
    let one_less : used t ≡ suc (used taken) = ground (arith, v.head, v.tail) in
    let w : TtyValid taken = record { head = v.head; tail = ground (arith, v.tail) } in
    let (valid, bytes, size) = copy_rx_lem n taken w (omega arith) in
    (valid, ap (λ bs. t.rx_buf t.rx_tail ∷ bs) bytes ∙ rw one_less refl, ap suc size)

-- The kernel stays valid, and the character is put in if it is no signal and there is room.
pub record IsReceived (s : Console) (c : ℕ) (s' : Console) : Type 0 where
  pub valid : TtyValid s'.tty
  pub kernel : OnCpu s'.kernel
  pub chars : content s'.tty ≡ (
      if c == 0x03 || (c == 0x1a || is_full s.tty) then content s.tty else content s.tty ++ c ∷ [])

signal_foreground-IsReceived :
    (s : Console) (c sig : ℕ)
    → TtyValid s.tty
    → OnCpu s.kernel
    → (c == 0x03 || c == 0x1a) ≡ true
    → IsReceived s c (signal_foreground s sig)
unfolding signal_foreground
signal_foreground-IsReceived s c sig v k e =
    elim (Bool-cases (s.tty.isig && not (s.tty.foreground_pgid == 0))) [
      | inl f ↦ rw f (record {
        valid = v;
        kernel = ksys_kill-OnCpu (negated s.tty.foreground_pgid) (pos sig) k;
        chars = ground arith;
      })
      | inr f ↦ rw f (record { valid = v; kernel = k; chars = ground arith })
    ]

-- With places of the ring in bounds and valid run queues, tty_receive_char keeps both, and the
-- queue of characters that the ring stands for gains the character at its end (a carriage return as
-- a newline), unless it is ^C or ^Z or the ring is full: then the queue stays as it is.
pub tty_receive_char-IsReceived :
    (s : Console) (c : ℕ)
    → TtyValid s.tty
    → OnCpu s.kernel
    → IsReceived s (unreturn c) (tty_receive_char s c)
unfolding tty_receive_char receive_plain
tty_receive_char-IsReceived s c v k = elim (Bool-cases (unreturn c == 0x03)) [
  | inl e ↦ rw e (signal_foreground-IsReceived s (unreturn c) sigint v k (ground arith))
  | inr e ↦ elim (Bool-cases (unreturn c == 0x1a)) [
    | inl f ↦ rw (e, f) (signal_foreground-IsReceived s (unreturn c) sigtstp v k (ground arith))
    | inr f ↦
        rw (e, f)
          (record {
            valid = rx_put-TtyValid s.tty (unreturn c) v;
            kernel = wake_up-OnCpu s.read_wait k;
            chars = content-rx_put s.tty (unreturn c) v ∙ rw (e, f) refl;
          })
  ]
]
