-- ===== src/Mm/Slub/Outside.antt =====
-- How many members of a list are outside another.
use mini_os.Prelude.{
  ℕ, ◌+◌, ◌≤◌, ◌<◌, ◌≡◌, ◌∙◌, true, false, List, [], ◌∷◌, refl, ap, sym, arith, ◌==◌, if◌then◌else◌,
  has, distinct, length, Bool-cases, inl, inr,
}

abbrev pub outside : List ℕ → List ℕ → ℕ
outside [] fs = 0
outside (x ∷ xs) fs = (if has x fs then 0 else 1) + outside xs fs

pub outside-nil : (xs : List ℕ) → outside xs [] ≡ length xs
outside-nil [] = refl
outside-nil (x ∷ xs) = omega (arith, outside-nil xs)

outside-absent :
    (xs : List ℕ) (o : ℕ) (fs : List ℕ) → has o xs ≡ false → outside xs (o ∷ fs) ≡ outside xs fs
outside-absent [] o fs h = refl
outside-absent (x ∷ xs) o fs h = ground (arith, outside-absent xs o fs)

-- One more member of a list without repetitions is inside.
pub outside-cons :
    (xs : List ℕ) (o : ℕ) (fs : List ℕ)
    → distinct xs ≡ true
    → has o xs ≡ true
    → has o fs ≡ false
    → outside xs fs ≡ outside xs (o ∷ fs) + 1
outside-cons [] o fs d h n = absurd (ground arith)
outside-cons (x ∷ xs) o fs d h n = elim (Bool-cases (o == x)) [
  | inl e ↦
      let same : x ≡ o = ground arith in
      let once : has o xs ≡ false = ap (λ y. has y xs) (sym same) ∙ ground arith in
      let out : has x fs ≡ false = ap (λ y. has y fs) same ∙ n in
      let back : (x == o) ≡ true = ground arith in
      rw (out, back) (omega (arith, outside-absent xs o fs once))
  | inr e ↦ ground (arith, outside-cons xs o fs)
]

pub outside-zero :
    (xs : List ℕ) (fs : List ℕ) (x : ℕ) → outside xs fs ≡ 0 → has x xs ≡ true → has x fs ≡ true
outside-zero [] fs x z h = absurd (ground arith)
outside-zero (y ∷ xs) fs x z h = elim (Bool-cases (x == y)) [
  | inl e ↦ let same : x ≡ y = ground arith in ap (λ w. has w fs) same ∙ ground arith
  | inr e ↦ outside-zero xs fs x (ground arith) (ground arith)
]

pub outside-le : (xs fs : List ℕ) → outside xs fs ≤ length xs
outside-le [] fs = omega arith
outside-le (x ∷ xs) fs = ground (arith, outside-le xs fs)

pub outside-lt :
    (xs fs : List ℕ) (x : ℕ) → has x xs ≡ true → has x fs ≡ true → outside xs fs < length xs
outside-lt [] fs x h k = absurd (ground arith)
outside-lt (y ∷ xs) fs x h k = elim (Bool-cases (x == y)) [
  | inl e ↦
      let same : y ≡ x = ground arith in
      let in_fs : has y fs ≡ true = ap (λ w. has w fs) same ∙ k in
      rw in_fs (omega (arith, outside-le xs fs))
  | inr e ↦ ground (arith, outside-lt xs fs x)
]

pub outside-all :
    (xs fs : List ℕ) → ((x : ℕ) → has x xs ≡ true → has x fs ≡ true) → outside xs fs ≡ 0
outside-all [] fs h = refl
outside-all (x ∷ xs) fs h =
    let self : (x == x) ≡ true = ground arith in
    let first : has x fs ≡ true = h x (rw self refl) in
    rw first (omega (arith, outside-all xs fs (λ y m. h y (ground arith))))
