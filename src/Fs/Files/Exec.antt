-- ===== src/Fs/Files/Exec.antt =====
-- fs/open.c: what `close_on_exec_fds` does to the table.
use mini_os.Prelude.{
  ℕ, zero, suc, ◌-◌, ◌^◌, ◌≤◌, ◌<◌, ◌≡◌, ◌∙◌, true, false, not, ◌&&◌, Option, none, some, refl, sym,
  ap, arith, ltb, ◌==◌, if◌then◌else◌, bit_and, complement, Bool-cases, Option-cases, inl, inr,
  test_bit, test_bit-and, test_bit-complement, test_bit-pow, test_bit_of_and,
}
use native.Mathlib.Nat.{pow-le-pow_right}
use mini_os.Fs.Files.{
  Files, nr_open, fput, free_file, clear_cloexec, iput, inode_maybe_evict, close_marked,
  close_marked_below, close_on_exec_fds,
}
use mini_os.Fs.Files.Count.{fput-files}

-- The end of a file leaves the marks alone.
iput-close_on_exec : (s : Files) (i : Option ℕ) → (iput s i).close_on_exec ≡ s.close_on_exec
unfolding iput inode_maybe_evict
iput-close_on_exec s none = refl
iput-close_on_exec s (some i) = ground arith

fput-close_on_exec : (s : Files) (p : ℕ) → (fput s p).close_on_exec ≡ s.close_on_exec
unfolding fput free_file
fput-close_on_exec s p = elim (Option-cases (s.file p)) [
  | inl e ↦ rw (fput, e) refl
  | inr (f, e) ↦ elim (Bool-cases (ltb 0 (f.refcount - 1))) [
    | inl g ↦ rw (fput, e, g) refl
    | inr g ↦ rw (fput, e, g) (iput-close_on_exec _ f.inode)
  ]
]

-- One turn of the loop closes a marked descriptor and takes the mark.
close_marked-files :
    (s : Files) (n i : ℕ)
    → (close_marked s n).files i
      ≡ (if i == n && test_bit s.close_on_exec n then none else s.files i)
unfolding close_marked clear_cloexec
close_marked-files s n i = elim (Bool-cases (bit_and s.close_on_exec (2 ^ n) == 0)) [
  | inl e ↦ rw (e, ← test_bit_of_and n s.close_on_exec, e) (ground arith)
  | inr e ↦ elim (Option-cases (s.files n)) [
    | inl f ↦ rw (e, close_marked, f, ← test_bit_of_and n s.close_on_exec, e) (empty f)
    | inr (p, f) ↦
        rw (e, close_marked, f, ← test_bit_of_and n s.close_on_exec, e, fput-files s p)
          (ground arith)
  ]
]
  where
    empty : s.files n ≡ none → s.files i ≡ (if i == n && true then none else s.files i)
    empty f = elim (Bool-cases (i == n)) [
      | inl g ↦ rw g (ap s.files (ground arith) ∙ f)
      | inr g ↦ rw g refl
    ]

close_marked-marks :
    (s : Files) (n i : ℕ)
    → n < nr_open
    → i < nr_open
    → test_bit (close_marked s n).close_on_exec i ≡ (not (i == n) && test_bit s.close_on_exec i)
unfolding close_marked clear_cloexec
close_marked-marks s n i h l = elim (Bool-cases (bit_and s.close_on_exec (2 ^ n) == 0)) [
  | inl e ↦ rw e (unmarked e)
  | inr e ↦ elim (Option-cases (s.files n)) [
    | inl f ↦ rw (e, close_marked, f) (masked s.close_on_exec)
    | inr (p, f) ↦ rw (e, close_marked, f, fput-close_on_exec s p) (masked s.close_on_exec)
  ]
]
  where
    unmarked :
        (bit_and s.close_on_exec (2 ^ n) == 0) ≡ true
        → test_bit s.close_on_exec i ≡ (not (i == n) && test_bit s.close_on_exec i)
    unmarked e = elim (Bool-cases (i == n)) [
      | inl g ↦ rw g (
          ap (test_bit s.close_on_exec) (ground arith)
          ∙ sym (test_bit_of_and n s.close_on_exec)
          ∙ ap not e)
      | inr g ↦ rw g refl
    ]

    masked :
        (marks : ℕ)
        → test_bit (bit_and marks (complement 64 (2 ^ n))) i ≡ (not (i == n) && test_bit marks i)
    masked marks =
        let small : 2 ^ n < 2 ^ 64 =
          omega (arith, pow-le-pow_right {n = 2} (omega arith) {i = n} {j = 32} (omega arith)) in
        rw
          (
            test_bit-and marks (complement 64 (2 ^ n)) i,
            test_bit-complement 64 (2 ^ n) i small (omega arith),
            test_bit-pow n i,
          )
          (ground arith)

close_marked_below_lem :
    (n : ℕ) (s : Files) (i : ℕ)
    → n ≤ nr_open
    → i < nr_open
    → ((close_marked_below n s).files i
        ≡ (if ltb i n && test_bit s.close_on_exec i then none else s.files i))
      × (test_bit (close_marked_below n s).close_on_exec i
          ≡ (not (ltb i n) && test_bit s.close_on_exec i))
unfolding close_marked_below
close_marked_below_lem zero s i h l = (ground arith, ground arith)
close_marked_below_lem (suc n) s i h l =
    let (files, marks) = close_marked_below_lem n s i (omega arith) l in
    let (_, at) = close_marked_below_lem n s n (omega arith) (omega arith) in
    let t = close_marked_below n s in
    (
      close_marked-files t n i ∙ rw (at, files) files_step,
      close_marked-marks t n i (omega arith) l ∙ rw marks (ground arith),
    )
  where
    files_step :
        (if i == n && (not (ltb n n) && test_bit s.close_on_exec n)
          then none
          else if ltb i n && test_bit s.close_on_exec i
          then none
          else s.files i)
        ≡ (if ltb i (suc n) && test_bit s.close_on_exec i then none else s.files i)
    files_step = elim (Bool-cases (i == n)) [
      | inl g ↦
          let same : test_bit s.close_on_exec i ≡ test_bit s.close_on_exec n =
            ap (test_bit s.close_on_exec) (ground arith) in
          ground (arith, same)
      | inr g ↦ ground arith
    ]

-- After close_on_exec_fds a descriptor below 32 is closed if its bit of close_on_exec was set and
-- is as before if not, and its bit is clear.
pub close_on_exec_fds_lem :
    (s : Files) (fd : ℕ)
    → fd < nr_open
    → ((close_on_exec_fds s).files fd ≡ (if test_bit s.close_on_exec fd then none else s.files fd))
      × (test_bit (close_on_exec_fds s).close_on_exec fd ≡ false)
unfolding close_on_exec_fds
close_on_exec_fds_lem s fd l =
    let (files, marks) = close_marked_below_lem nr_open s fd (omega arith) l in
    (ground (arith, files), ground (arith, marks))
