-- ===== src/Drivers/Tty/Line.antt =====
-- drivers/tty/tty.c: lines, and what a read takes.
use mini_os.Prelude.{
  ℕ, zero, suc, ◌+◌, ◌-◌, ◌≤◌, ◌<◌, ◌≡◌, ◌∙◌, Bool, true, false, not, ◌&&◌, List, [], ◌∷◌, ◌++◌,
  refl, sym, ap, arith, ltb, ◌==◌, if◌then◌else◌, length, Bool-cases, inl, inr,
}
use mathlib.Core.Path.{subst}
use mini_os.Prelude.Ring.{next_place, run, distance}
use mini_os.Drivers.Tty.{
  Tty, Console, tty_rx_size, tty_rx_next, tty_rx_count_locked, newline, unreturn, line_length_from,
  tty_rx_line_length_locked, tty_read_ready, tty_read_now, signal_foreground, rx_put, receive_plain,
  tty_receive_char, copy_rx,
}
use mini_os.Drivers.Tty.Content.{TtyValid, used, content, copy_rx_lem}

-- The length of the first line with its newline, or 0, counted from `n`.
abbrev pub first_line : (n : ℕ) → List ℕ → ℕ
first_line n [] = 0
first_line n (c ∷ cs) = if c == newline then n + 1 else first_line (n + 1) cs

line_length_from_lem :
    (fuel : ℕ) (t : Tty) (n m i : ℕ)
    → t.rx_head < tty_rx_size
    → i < tty_rx_size
    → distance tty_rx_size i t.rx_head ≡ m
    → m < fuel
    → line_length_from fuel t n i ≡ first_line n (run tty_rx_size m i t.rx_buf)
unfolding line_length_from
line_length_from_lem zero t n m i h l d f = absurd (omega arith)
line_length_from_lem (suc fuel) t n zero i h l d f =
    let end : (i == t.rx_head) ≡ true = ground arith in rw end refl
line_length_from_lem (suc fuel) t n (suc m) i h l d f =
    let before : (i == t.rx_head) ≡ false = ground arith in
    elim (Bool-cases (t.rx_buf i == newline)) [
      | inl e ↦ rw (before, e) refl
      | inr e ↦
          rw (before, e)
            (line_length_from_lem fuel t (n + 1) m (tty_rx_next i) h (ground arith) (ground arith)
              (omega arith))
    ]

-- The loop has enough fuel, and it gives the length of the first line of the queue, or 0.
tty_rx_line_length-first_line :
    (t : Tty) → TtyValid t → tty_rx_line_length_locked t ≡ first_line 0 (content t)
unfolding tty_rx_line_length_locked
tty_rx_line_length-first_line t v =
    line_length_from_lem tty_rx_size t 0 (used t) t.rx_tail v.head v.tail refl
      (ground (arith, v.head, v.tail))

first_line-length : (n : ℕ) (cs : List ℕ) → first_line n cs ≤ n + length cs
first_line-length n [] = omega arith
first_line-length n (c ∷ cs) = ground (arith, first_line-length (n + 1) cs)

length-run : (size n i : ℕ) (f : ℕ → ℕ) → length (run size n i f) ≡ n
length-run size zero i f = refl
length-run size (suc n) i f = ap suc (length-run size n (next_place size i) f)

-- What may be read: in canonical mode the first line, if there is one, else all.
abbrev pub readable : Tty → ℕ
readable t = if t.canonical then first_line 0 (content t) else length (content t)

abbrev pub least : ℕ → ℕ → ℕ
least a b = if ltb a b then a else b

-- The bytes are the front of what was in the ring, the rest stays, and as many are taken as were
-- asked for or may be read.
pub record IsTtyRead (t : Tty) (count : ℕ) (out : List ℕ × Tty) : Type 0 where
  pub valid : TtyValid out.1
  pub bytes : out.0 ++ content out.1 ≡ content t
  pub size : length out.0 ≡ least count (readable t)

readable-used : (t : Tty) → readable t ≤ used t
readable-used t =
    let whole = length-run tty_rx_size (used t) t.rx_tail t.rx_buf in
    ground (arith, first_line-length 0 (content t), whole)

-- Either way, `n` is what may be read.
take_at_most :
    (t : Tty) (count n : ℕ)
    → TtyValid t
    → n ≡ readable t
    → IsTtyRead t count
        (if not (ltb 0 n) then ([], t) else copy_rx (if ltb count n then count else n) t)
take_at_most t count n v e = elim (Bool-cases (ltb 0 n)) [
  | inr none_left ↦ rw none_left (record { valid = v; bytes = refl; size = ground arith })
  | inl some_left ↦
      let enough : least count n ≤ used t = ground (arith, readable-used t, e) in
      let (valid, bytes, size) = copy_rx_lem (least count n) t v enough in
      rw some_left (record { valid = valid; bytes = bytes; size = size ∙ ap (least count) e })
]

amount : Tty → ℕ
amount t = if t.canonical then tty_rx_line_length_locked t else tty_rx_count_locked t

amount-readable : (t : Tty) → TtyValid t → amount t ≡ readable t
unfolding amount tty_rx_count_locked
amount-readable t v =
    choose t.canonical (tty_rx_line_length-first_line t v)
      (sym (length-run tty_rx_size (used t) t.rx_tail t.rx_buf))
  where
    choose :
        (b : Bool) {x y x' y' : ℕ} → x ≡ x' → y ≡ y' → (if b then x else y) ≡ (if b then x' else y')
    choose true e f = e
    choose false e f = f

tty_read_ready-amount : (t : Tty) → tty_read_ready t ≡ ltb 0 (amount t)
unfolding amount tty_read_ready
tty_read_ready-amount t = lift t.canonical (tty_rx_line_length_locked t) (tty_rx_count_locked t)
  where
    lift : (b : Bool) (x y : ℕ) → (if b then ltb 0 x else ltb 0 y) ≡ ltb 0 (if b then x else y)
    lift true x y = refl
    lift false x y = refl

-- With places of the ring in bounds, a read that has waited takes characters off the front of the
-- queue and leaves the rest: as many as were asked for, or as there are up to the first newline in
-- canonical mode and in all in the other, whichever is less.
pub tty_read_now-IsTtyRead :
    (t : Tty) (count : ℕ) → TtyValid t → IsTtyRead t count (tty_read_now t count)
unfolding tty_read_now amount
tty_read_now-IsTtyRead t count v =
    rw (tty_read_ready-amount t) (take_at_most t count (amount t) v (amount-readable t v))

-- The state after the characters, first to last.
abbrev pub receive_all : Console → List ℕ → Console
receive_all s [] = s
receive_all s (c ∷ cs) = receive_all (tty_receive_char s c) cs

-- Canonical mode, with a full ring that holds no newline.
pub record IsStuck (t : Tty) : Type 0 where
  pub valid : TtyValid t
  pub canonical : t.canonical ≡ true
  pub full : used t ≡ tty_rx_size - 1
  pub no_line : first_line 0 (content t) ≡ 0

full_stays :
    (s : Console) (c : ℕ)
    → (tty_rx_next s.tty.rx_head == s.tty.rx_tail) ≡ true
    → (tty_receive_char s c).tty ≡ s.tty
unfolding tty_receive_char signal_foreground receive_plain rx_put
full_stays s c e = elim (Bool-cases (unreturn c == 0x03)) [
  | inl f ↦ rw f (signalled 2)
  | inr f ↦ elim (Bool-cases (unreturn c == 0x1a)) [
    | inl g ↦ rw (f, g) (signalled 20)
    | inr g ↦ rw (f, g, e) refl
  ]
]
  where
    signalled : (sig : ℕ) → (signal_foreground s sig).tty ≡ s.tty
    signalled sig = elim (Bool-cases (s.tty.isig && not (s.tty.foreground_pgid == 0))) [
      | inl h ↦ rw (signal_foreground, h) refl
      | inr h ↦ rw (signal_foreground, h) refl
    ]

full_meets :
    (h i : ℕ)
    → h < tty_rx_size
    → i < tty_rx_size
    → distance tty_rx_size i h ≡ tty_rx_size - 1
    → (tty_rx_next h == i) ≡ true
full_meets h i l m d = ground arith

IsStuck-full : (t : Tty) → IsStuck t → (tty_rx_next t.rx_head == t.rx_tail) ≡ true
IsStuck-full t k = full_meets t.rx_head t.rx_tail k.valid.head k.valid.tail k.full

-- In canonical mode with a full ring that holds no newline, no sequence of further characters,
-- newlines included, ever makes the terminal ready to be read.
pub receive_all-stuck :
    (s : Console) (cs : List ℕ) → IsStuck s.tty → tty_read_ready (receive_all s cs).tty ≡ false
receive_all-stuck s [] k =
    tty_read_ready-amount s.tty
    ∙ ap (ltb 0) (
        amount-readable s.tty k.valid
        ∙ ap (λ b. if b then first_line 0 (content s.tty) else length (content s.tty)) k.canonical
        ∙ k.no_line)
receive_all-stuck s (x ∷ cs) k =
    receive_all-stuck (tty_receive_char s x) cs
      (subst IsStuck (sym (full_stays s x (IsStuck-full s.tty k))) k)
