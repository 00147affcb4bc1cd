-- ===== src/Fs/Files/Effects.antt =====
-- fs/open.c: what the calls do to the table and to the open files.
use mini_os.Prelude.{
  ℕ, zero, suc, ◌+◌, ◌-◌, ◌≤◌, ◌<◌, ◌≡◌, ◌≢◌, ◌↔◌, ◌∙◌, true, false, none, some, refl, sym, ap,
  arith, ltb, ◌==◌, update, Bool-cases, Option-cases, inl, inr,
}
use mini_os.Kernel.Task.{Ret, ok, err, ebadf, emfile}
use mini_os.Fs.Files.{
  Files, nr_open, uart_file, get_file, fput, free_file, clear_cloexec, set_slot, install_from,
  install_fd, lookup_fd, close_fd, installed, ksys_dup,
}
use mini_os.Fs.Files.Descriptors.{held-refs}
use mini_os.Fs.Files.Count.{
  refs, refcount_of, holds, count, count-update, Counted, get_file-files, fput-files,
}

-- The lowest free descriptor from `fd` on now holds the file, without the mark, or none is free.
pub data IsInstalled (n fd : ℕ) (s : Files) (p : ℕ) : Ret × Files → Type 0 where
  lowest :
      (at : ℕ) (s' : Files)
      → fd ≤ at
      → at < fd + n
      → s.files at ≡ none
      → ((i : ℕ) → fd ≤ i → i < at → s.files i ≢ none)
      → s'.files ≡ update s.files at (some p)
      → s'.file ≡ s.file
      → IsInstalled n fd s p (ok at, s')
  full : ((i : ℕ) → fd ≤ i → i < fd + n → s.files i ≢ none) → IsInstalled n fd s p (err emfile, s)

install_from-IsInstalled :
    (n fd : ℕ) (s : Files) (p : ℕ) → IsInstalled n fd s p (install_from n fd s p)
unfolding install_from clear_cloexec
install_from-IsInstalled zero fd s p = full (λ i a b. absurd (omega arith))
install_from-IsInstalled (suc n) fd s p = elim (Option-cases (s.files fd)) [
  | inl e ↦
      rw (install_from, e)
        (lowest fd _ (omega arith) (omega arith) e (λ i a b. absurd (omega arith)) refl refl)
  | inr (q, e) ↦ rw (install_from, e) (further q e (install_from-IsInstalled n (fd + 1) s p))
]
  where
    taken : (q : ℕ) → s.files fd ≡ some q → (i : ℕ) → i ≡ fd → s.files i ≢ none
    taken q e i same = rw (same, e) (λ x. ground arith)

    further :
        (q : ℕ)
        → s.files fd ≡ some q
        → {out : Ret × Files} → IsInstalled n (fd + 1) s p out
        → IsInstalled (suc n) fd s p out
    further q e (lowest at s' a b free held set same) =
        lowest at s' (omega arith) (omega arith) free
          (λ i c d. elim (Bool-cases (i == fd)) [
            | inl f ↦ taken q e i (ground arith)
            | inr f ↦ held i (ground arith) d
          ])
          set same
    further q e (full held) = full (λ i c d. elim (Bool-cases (i == fd)) [
      | inl f ↦ taken q e i (ground arith)
      | inr f ↦ held i (ground arith) (omega arith)
    ])

-- `dup` refuses a closed descriptor and a full table, and else takes the lowest free one.
pub data IsDup (s : Files) (oldfd : ℕ) : Ret × Files → Type 0 where
  closed : lookup_fd s oldfd ≡ none → IsDup s oldfd (err ebadf, s)
  full :
      (s' : Files)
      → ((i : ℕ) → i < nr_open → s.files i ≢ none)
      → s'.files ≡ s.files
      → IsDup s oldfd (err emfile, s')
  duplicate :
      (p at : ℕ) (s' : Files)
      → lookup_fd s oldfd ≡ some p
      → at < nr_open
      → s.files at ≡ none
      → ((i : ℕ) → i < at → s.files i ≢ none)
      → s'.files ≡ update s.files at (some p)
      → IsDup s oldfd (ok at, s')

-- dup refuses a descriptor that is not open with -EBADF and no change, refuses with -EMFILE and the
-- table as it was if no descriptor is free, and else the lowest free descriptor now holds the same
-- file.
pub ksys_dup-IsDup : (s : Files) (oldfd : ℕ) → IsDup s oldfd (ksys_dup s oldfd)
unfolding ksys_dup install_fd installed
ksys_dup-IsDup s oldfd = elim (Option-cases (lookup_fd s oldfd)) [
  | inl e ↦ rw (ksys_dup, e) (closed e)
  | inr (p, e) ↦
      rw (ksys_dup, e)
        (taken p e (get_file-files s p) (install_from-IsInstalled nr_open 0 (get_file s p) p))
]
  where
    taken :
        (p : ℕ)
        → lookup_fd s oldfd ≡ some p
        → {g : Files} → g.files ≡ s.files
        → {out : Ret × Files} → IsInstalled nr_open 0 g p out
        → IsDup s oldfd (installed p out)
    taken p e {g} same (lowest at s' a b free held set _) =
        duplicate p at s' e b (ap (λ files. files at) (sym same) ∙ free)
          (λ i l x. held i (omega arith) l (ap (λ files. files i) same ∙ x))
          (set ∙ ap (λ files. update files at (some p)) same)
    taken p e {g} same (full held) =
        full (fput g p) (λ i l x. held i (omega arith) l (ap (λ files. files i) same ∙ x))
          (fput-files g p ∙ same)

fput-frees :
    (t : Files) (p : ℕ) → 0 < refs t p → p ≢ uart_file → ((fput t p).file p ≡ none) ↔ (refs t p ≤ 1)
unfolding fput free_file
fput-frees t p h u = elim (Option-cases (t.file p)) [
  | inl e ↦ absurd (omega (arith, ap refcount_of e))
  | inr (f, e) ↦
      let count : refs t p ≡ f.refcount = ap refcount_of e in
      elim (Bool-cases (ltb 0 (f.refcount - 1))) [
        | inl g ↦ rw (fput, e, g, self) ((λ x. absurd (ground arith)), (λ x. absurd (ground arith)))
        | inr g ↦ rw (fput, e, g, self, other) ((λ x. ground arith), (λ x. refl))
      ]
]
  where
    self : (p == p) ≡ true
    self = ground arith

    other : (p == uart_file) ≡ false
    other = ground arith

-- If the reference counts are exact, closing a descriptor of an open file other than uart_file
-- frees the file exactly if no other descriptor and nothing else holds it.
pub close_fd-frees :
    (others : ℕ → ℕ) (s : Files) (fd p : ℕ)
    → Counted others s
    → lookup_fd s fd ≡ some p
    → p ≢ uart_file
    → ((close_fd s fd).1.file p ≡ none) ↔ (others p + count nr_open (update s.files fd none) p ≡ 0)
unfolding close_fd
close_fd-frees others s fd p c e u =
    let (l, at, h) = held-refs fd p c e in
    let (to, from) = fput-frees (set_slot s fd none) p h u in
    rw (close_fd, e) ((λ x. less at l (to x)), (λ x. from (more at l x)))
  where
    one : (q : ℕ) → holds (some q) q ≡ 1
    one q = ground arith

    balance :
        s.files fd ≡ some p
        → fd < nr_open
        → refs s p ≡ others p + count nr_open (update s.files fd none) p + 1
    balance at l = omega (
      arith,
      c.counted p,
      count-update nr_open fd none s.files p l,
      ap (λ slot. holds slot p) at,
      one p,
    )

    less :
        s.files fd ≡ some p
        → fd < nr_open
        → refs s p ≤ 1
        → others p + count nr_open (update s.files fd none) p ≡ 0
    less at l h = omega (arith, balance at l)

    more :
        s.files fd ≡ some p
        → fd < nr_open
        → others p + count nr_open (update s.files fd none) p ≡ 0
        → refs s p ≤ 1
    more at l h = omega (arith, balance at l)
