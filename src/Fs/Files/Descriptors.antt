-- ===== src/Fs/Files/Descriptors.antt =====
-- fs/open.c: the calls on descriptors keep the references of the open files exact.
use mini_os.Prelude.{
  ℕ, zero, suc, ◌+◌, ◌^◌, ◌≤◌, ◌<◌, ◌≡◌, Bool, true, false, not, ◌||◌, none, some, ap, arith, leb,
  ◌==◌, bit_and, complement, update, Bool-cases, Option-cases, inl, inr,
}
use mini_os.Fs.Files.{
  Files, nr_open, get_file, fput, set_cloexec, clear_cloexec, set_slot, mark, fput_old,
  install_from, install_fd, lookup_fd, close_fd, close_marked, close_marked_below, installed,
  ksys_dup, ksys_dup2, ksys_dup3, o_cloexec,
}
use mini_os.Fs.Files.Count.{
  refs, holds, count, count-update, count_held, Counted, get_file-Counted, fput-Counted,
  fput_old-Counted, set_slot-Counted, get_file-files, fput-files, refs-fput,
}

pub mark-Counted :
    {others : ℕ → ℕ} {s : Files} (flag : Bool) (fd : ℕ)
    → Counted others s
    → Counted others (mark flag s fd)
unfolding set_cloexec clear_cloexec
mark-Counted true fd c = record { counted = c.counted }
mark-Counted false fd c = record { counted = c.counted }

pub held-refs :
    {others : ℕ → ℕ} {s : Files} (fd p : ℕ)
    → Counted others s
    → lookup_fd s fd ≡ some p
    → (fd < nr_open) × (s.files fd ≡ some p) × (0 < refs s p)
held-refs {others} {s} fd p c e = elim (Bool-cases (leb nr_open fd)) [
  | inl g ↦ absurd (beyond g)
  | inr g ↦ (
    ground arith,
    at g,
    omega (arith, c.counted p, count_held nr_open fd s.files p (ground arith) (at g)),
  )
]
  where
    at : leb nr_open fd ≡ false → s.files fd ≡ some p
    at g = ground arith

    beyond : leb nr_open fd ≡ true → ⊥
    beyond g = ground arith

pub install_from-Counted :
    (n fd p : ℕ) {others : ℕ → ℕ} {s : Files}
    → fd + n ≤ nr_open
    → Counted (λ q. others q + holds (some p) q) s
    → Counted others (installed p (install_from n fd s p)).1
unfolding install_from installed clear_cloexec
install_from-Counted zero fd p h c = fput-Counted p c
install_from-Counted (suc n) fd p {others} {s} h c = elim (Option-cases (s.files fd)) [
  | inr (q, e) ↦ rw (install_from, e) (install_from-Counted n (fd + 1) p (omega arith) c)
  | inl e ↦
      let d = set_slot-Counted others fd (some p) (omega arith) c in
      rw (install_from, e)
        (record { counted = λ q. omega (arith, d.counted q, ap (λ slot. holds slot q) e) })
]

pub ksys_dup-Counted :
    {others : ℕ → ℕ} {s : Files} (oldfd : ℕ)
    → Counted others s
    → Counted others (ksys_dup s oldfd).1
unfolding ksys_dup install_fd
ksys_dup-Counted {others} {s} oldfd c = elim (Option-cases (lookup_fd s oldfd)) [
  | inl e ↦ rw (ksys_dup, e) c
  | inr (p, e) ↦
      let h = held-refs oldfd p c e in
      rw (ksys_dup, e) (install_from-Counted nr_open 0 p (omega arith) (get_file-Counted p c h.2))
]

pub ksys_dup3-Counted :
    {others : ℕ → ℕ} {s : Files} (oldfd newfd flags : ℕ)
    → Counted others s
    → Counted others (ksys_dup3 s oldfd newfd flags).1
unfolding ksys_dup3
ksys_dup3-Counted {others} {s} oldfd newfd flags c =
    elim (Bool-cases (not (bit_and flags (complement 32 o_cloexec) == 0))) [
      | inl e ↦ rw e c
      | inr e ↦ elim (Bool-cases (oldfd == newfd)) [
        | inl f ↦ rw (e, f) c
        | inr f ↦ elim (Bool-cases (leb nr_open oldfd || leb nr_open newfd)) [
          | inl g ↦ rw (e, f, g) c
          | inr g ↦ elim (Option-cases (s.files oldfd)) [
            | inl i ↦ rw (e, f, g, ksys_dup3, i) c
            | inr (p, i) ↦ rw (e, f, g, ksys_dup3, i) (moved p i (ground arith) (ground arith))
          ]
        ]
      ]
    ]
  where
    moved :
        (p : ℕ)
        → s.files oldfd ≡ some p
        → oldfd < nr_open
        → newfd < nr_open
        → Counted others (
            mark
              (not (bit_and flags o_cloexec == 0))
              (fput_old (s.files newfd) (set_slot (get_file s p) newfd (some p)))
              newfd)
    moved p i a b =
        let held : 0 < refs s p =
          omega (arith, c.counted p, count_held nr_open oldfd s.files p a i) in
        let set = set_slot-Counted others newfd (some p) b (get_file-Counted p c held) in
        mark-Counted (not (bit_and flags o_cloexec == 0)) newfd (
          fput_old-Counted (s.files newfd) (record {
            counted = λ q.
                omega
                  (arith, set.counted q, ap (λ files. holds (files newfd) q) (get_file-files s p));
          }))

pub ksys_dup2-Counted :
    {others : ℕ → ℕ} {s : Files} (oldfd newfd : ℕ)
    → Counted others s
    → Counted others (ksys_dup2 s oldfd newfd).1
unfolding ksys_dup2
ksys_dup2-Counted {others} {s} oldfd newfd c = elim (Bool-cases (oldfd == newfd)) [
  | inr e ↦ rw e (ksys_dup3-Counted oldfd newfd 0 c)
  | inl e ↦ elim (Option-cases (lookup_fd s oldfd)) [
    | inl f ↦ rw (e, f) c
    | inr (p, f) ↦ rw (e, f) c
  ]
]

pub close_fd-Counted :
    {others : ℕ → ℕ} {s : Files} (fd : ℕ) → Counted others s → Counted others (close_fd s fd).1
unfolding close_fd
close_fd-Counted {others} {s} fd c = elim (Option-cases (lookup_fd s fd)) [
  | inl e ↦ rw (close_fd, e) c
  | inr (p, e) ↦
      let (l, at, h) = held-refs fd p c e in
      let cleared =
        set_slot-Counted others {s = s} fd none l
          (record { counted = λ q. omega (arith, c.counted q) }) in
      rw (close_fd, e)
        (fput-Counted p (record {
          counted = λ q. omega (arith, cleared.counted q, ap (λ slot. holds slot q) at);
        }))
]

close_marked-Counted :
    {others : ℕ → ℕ} {s : Files} (i : ℕ)
    → i < nr_open
    → Counted others s
    → Counted others (close_marked s i)
unfolding close_marked clear_cloexec
close_marked-Counted {others} {s} i h c = elim (Bool-cases (bit_and s.close_on_exec (2 ^ i) == 0)) [
  | inl e ↦ rw e c
  | inr e ↦ elim (Option-cases (s.files i)) [
    | inl f ↦ rw (e, f) (record { counted = c.counted })
    | inr (p, f) ↦ rw (e, close_marked, f) (record { counted = closed p f })
  ]
]
  where
    closed :
        (p : ℕ)
        → s.files i ≡ some p
        → (q : ℕ) → refs (fput s p) q ≡ others q + count nr_open (update (fput s p).files i none) q
    closed p f q = rw (fput-files s p) (
        omega (
          arith,
          refs-fput s p q,
          c.counted q,
          count-update nr_open i none s.files q h,
          ap (λ slot. holds slot q) f,
        ))

pub close_marked_below-Counted :
    (n : ℕ) {others : ℕ → ℕ} {s : Files}
    → n ≤ nr_open
    → Counted others s
    → Counted others (close_marked_below n s)
unfolding close_marked_below
close_marked_below-Counted zero h c = c
close_marked_below-Counted (suc n) h c =
    close_marked-Counted n (omega arith) (close_marked_below-Counted n (omega arith) c)
