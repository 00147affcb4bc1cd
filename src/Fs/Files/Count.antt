-- ===== src/Fs/Files/Count.antt =====
-- fs/open.c: the references of an open file, and the descriptors that hold it.
use mini_os.Prelude.{
  ℕ, zero, suc, ◌+◌, ◌-◌, ◌≤◌, ◌<◌, ◌≡◌, true, Option, none, some, ◌∷◌, refl, ap, arith, ltb, ◌==◌,
  if◌then◌else◌, update, Bool-cases, Option-cases, inl, inr,
}
use mini_os.Fs.Files.{
  File, Files, released, nr_open, iput, inode_maybe_evict, get_file, free_file, fput, set_slot,
  fput_old,
}

abbrev pub refcount_of : Option File → ℕ
refcount_of none = 0
refcount_of (some f) = f.refcount

abbrev pub refs : Files → ℕ → ℕ
refs s p = refcount_of (s.file p)

abbrev pub holds : Option ℕ → ℕ → ℕ
holds none p = 0
holds (some q) p = if q == p then 1 else 0

-- How many of the descriptors below `n` hold the file.
abbrev pub count : ℕ → (ℕ → Option ℕ) → ℕ → ℕ
count zero files p = 0
count (suc n) files p = count n files p + holds (files n) p

-- Every reference is held by a descriptor of this table or by one of the `others`.
pub record Counted (others : ℕ → ℕ) (s : Files) : Type 0 where
  pub counted : (p : ℕ) → refs s p ≡ others p + count nr_open s.files p

count-update_beyond :
    (n fd : ℕ) (slot : Option ℕ) (files : ℕ → Option ℕ) (p : ℕ)
    → n ≤ fd
    → count n (update files fd slot) p ≡ count n files p
count-update_beyond zero fd slot files p h = refl
count-update_beyond (suc n) fd slot files p h =
    ground (arith, count-update_beyond n fd slot files p (omega arith))

pub count-update :
    (n fd : ℕ) (slot : Option ℕ) (files : ℕ → Option ℕ) (p : ℕ)
    → fd < n
    → count n (update files fd slot) p + holds (files fd) p ≡ count n files p + holds slot p
count-update zero fd slot files p h = absurd (omega arith)
count-update (suc n) fd slot files p h = elim (Bool-cases (n == fd)) [
  | inl e ↦
      let same : n ≡ fd = ground arith in
      rw e (
        omega (
          arith,
          count-update_beyond n fd slot files p (omega arith),
          ap (λ i. holds (files i) p) same,
        ))
  | inr e ↦ ground (arith, count-update n fd slot files p (ground arith))
]

pub count_held :
    (n fd : ℕ) (files : ℕ → Option ℕ) (p : ℕ) → fd < n → files fd ≡ some p → 0 < count n files p
count_held zero fd files p h e = absurd (omega arith)
count_held (suc n) fd files p h e = elim (Bool-cases (n == fd)) [
  | inl f ↦
      let same : n ≡ fd = ground arith in omega (arith, ap (λ i. holds (files i) p) same, held)
  | inr f ↦ omega (arith, count_held n fd files p (ground arith) e)
]
  where
    self : (p == p) ≡ true
    self = ground arith

    held : holds (files fd) p ≡ 1
    held = rw (e, self) refl

-- One reference more on `p`, and one less, where there is one.
pub refs-get_file :
    (s : Files) (p q : ℕ) → 0 < refs s p → refs (get_file s p) q ≡ refs s q + holds (some p) q
unfolding get_file
refs-get_file s p q h = elim (Option-cases (s.file p)) [
  | inl e ↦ absurd (omega (arith, ap refcount_of e))
  | inr (f, e) ↦ elim (Bool-cases (q == p)) [
    | inl g ↦
        let same : q ≡ p = ground arith in
        rw (get_file, e, g) (ground (arith, ap (refs s) same, ap refcount_of e))
    | inr g ↦ rw (get_file, e, g) (ground arith)
  ]
]

inode_maybe_evict-file : (s : Files) (i : ℕ) → (inode_maybe_evict s i).file ≡ s.file
unfolding inode_maybe_evict
inode_maybe_evict-file s i = ground arith

pub iput-file : (s : Files) (i : Option ℕ) → (iput s i).file ≡ s.file
unfolding iput
iput-file s none = refl
iput-file s (some i) = elim (Bool-cases ((s.inodes i).i_count == 0)) [
  | inl e ↦ rw e refl
  | inr e ↦ rw e (inode_maybe_evict-file _ i)
]

free_file-refs :
    (s : Files) (p q : ℕ) (f : File) → refs (free_file s p f) q ≡ (if q == p then 0 else refs s q)
unfolding free_file
free_file-refs s p q f =
    rw
      (iput-file (record s { events = if f.has_release then released p ∷ s.events else s.events })
        f.inode)
      (ground arith)

pub refs-fput : (s : Files) (p q : ℕ) → refs (fput s p) q ≡ refs s q - holds (some p) q
unfolding fput
refs-fput s p q = elim (Option-cases (s.file p)) [
  | inl e ↦ rw (fput, e) (ground (arith, same, ap refcount_of e))
  | inr (f, e) ↦ elim (Bool-cases (ltb 0 (f.refcount - 1))) [
    | inl g ↦ rw (fput, e, g) (ground (arith, same, ap refcount_of e))
    | inr g ↦ rw (fput, e, g) (ground (arith, same, ap refcount_of e, free_file-refs s p q f))
  ]
]
  where
    same : (q == p) ≡ true → refs s q ≡ refs s p
    same g = ap (refs s) (ground arith)

-- The calls leave the table alone.
inode_maybe_evict-files : (s : Files) (i : ℕ) → (inode_maybe_evict s i).files ≡ s.files
unfolding inode_maybe_evict
inode_maybe_evict-files s i = ground arith

iput-files : (s : Files) (i : Option ℕ) → (iput s i).files ≡ s.files
unfolding iput
iput-files s none = refl
iput-files s (some i) = elim (Bool-cases ((s.inodes i).i_count == 0)) [
  | inl e ↦ rw e refl
  | inr e ↦ rw e (inode_maybe_evict-files _ i)
]

pub get_file-files : (s : Files) (p : ℕ) → (get_file s p).files ≡ s.files
unfolding get_file
get_file-files s p = elim (Option-cases (s.file p)) [
  | inl e ↦ rw (get_file, e) refl
  | inr (f, e) ↦ rw (get_file, e) refl
]

pub fput-files : (s : Files) (p : ℕ) → (fput s p).files ≡ s.files
unfolding fput free_file
fput-files s p = elim (Option-cases (s.file p)) [
  | inl e ↦ rw (fput, e) refl
  | inr (f, e) ↦ elim (Bool-cases (ltb 0 (f.refcount - 1))) [
    | inl g ↦ rw (fput, e, g) refl
    | inr g ↦ rw (fput, e, g) (iput-files _ f.inode)
  ]
]

-- What each step does to the references that are held from elsewhere.
pub get_file-Counted :
    {others : ℕ → ℕ} {s : Files} (p : ℕ)
    → Counted others s
    → 0 < refs s p
    → Counted (λ q. others q + holds (some p) q) (get_file s p)
get_file-Counted {others} {s} p c h = record {
  counted = λ q. rw (get_file-files s p) (omega (arith, refs-get_file s p q h, c.counted q));
}

pub fput-Counted :
    {others : ℕ → ℕ} {s : Files} (p : ℕ)
    → Counted (λ q. others q + holds (some p) q) s
    → Counted others (fput s p)
fput-Counted {others} {s} p c = record {
  counted = λ q. rw (fput-files s p) (omega (arith, refs-fput s p q, c.counted q));
}

pub fput_old-Counted :
    {others : ℕ → ℕ} {s : Files} (slot : Option ℕ)
    → Counted (λ q. others q + holds slot q) s
    → Counted others (fput_old slot s)
fput_old-Counted none c = record { counted = λ q. omega (arith, c.counted q) }
fput_old-Counted (some p) c = fput-Counted p c

pub set_slot-Counted :
    (others : ℕ → ℕ) {s : Files} (fd : ℕ) (slot : Option ℕ)
    → fd < nr_open
    → Counted (λ q. others q + holds slot q) s
    → Counted (λ q. others q + holds (s.files fd) q) (set_slot s fd slot)
set_slot-Counted others {s} fd slot h c = record {
  counted = λ q. omega (arith, count-update nr_open fd slot s.files q h, c.counted q);
}
