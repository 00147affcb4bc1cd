-- ===== src/Mm/Mmap/Cover.antt =====
-- `mprotect_covered` of mm/mmap.c.
use mini_os.Prelude.{
  ℕ, zero, suc, ◌+◌, ◌≤◌, ◌<◌, ◌≡◌, ◌≢◌, ◌↔◌, Bool, true, false, Option, none, some, List, [], ◌∷◌,
  refl, arith, ltb, leb, if◌then◌else◌, Bool-cases, inl, inr, length,
}
use mini_os.Mm.Mmap.{VmAreaStruct, find_vma}
use mini_os.Mm.Mmap.Areas.{IsSorted, flags_at, flags_at_below}
use mini_os.Mm.Mmap.Protect.{covered_from, mprotect_covered}

-- How many areas end above the address.
abbrev above : ℕ → List VmAreaStruct → ℕ
above va [] = 0
above va (v ∷ vs) = (if ltb va v.vm_end then 1 else 0) + above va vs

above-length : (va : ℕ) (vs : List VmAreaStruct) → above va vs ≤ length vs
above-length va [] = omega arith
above-length va (v ∷ vs) = ground (arith, above-length va vs)

above_mono : (va wa : ℕ) (vs : List VmAreaStruct) → va ≤ wa → above wa vs ≤ above va vs
above_mono va wa [] h = omega arith
above_mono va wa (v ∷ vs) h = ground (arith, above_mono va wa vs h)

-- What `find_vma` finds: an area of which the addresses from `va` on are held, if it begins at `va`
-- or below, and above whose end fewer areas end; or nothing holds `va`.
data FoundVma (va : ℕ) (vs : List VmAreaStruct) : Option VmAreaStruct → Type 0 where
  found :
      (v : VmAreaStruct)
      → va < v.vm_end
      → above v.vm_end vs < above va vs
      → ((a : ℕ) → v.vm_start ≤ va → va ≤ a → a < v.vm_end → flags_at vs a ≡ some v.vm_flags)
      → (va < v.vm_start → flags_at vs va ≡ none)
      → FoundVma va vs (some v)
  missing : flags_at vs va ≡ none → FoundVma va vs none

FoundVma-behind :
    {va : ℕ} {vs : List VmAreaStruct} {o : Option VmAreaStruct} (w : VmAreaStruct)
    → w.vm_end ≤ va
    → FoundVma va vs o
    → FoundVma va (w ∷ vs) o
FoundVma-behind w l (found v e n held free) =
    found v e (ground arith) (λ a s b h. ground (arith, held a s b h)) (λ h. ground (arith, free h))
FoundVma-behind w l (missing free) = missing (ground (arith, free))

find_vma-FoundVma :
    (low va : ℕ) (vs : List VmAreaStruct) → IsSorted low vs → FoundVma va vs (find_vma vs va)
unfolding find_vma
find_vma-FoundVma low va [] s = missing refl
find_vma-FoundVma low va (w ∷ vs) s = elim (Bool-cases (ltb va w.vm_end)) [
  | inl e ↦
      let fewer = above_mono va w.vm_end vs (ground arith) in
      rw e (
        found w (ground arith) (ground (arith, fewer)) (λ a b l h. ground arith)
          (λ h. ground (arith, flags_at_below w.vm_end va vs)))
  | inr e ↦ rw e (FoundVma-behind w (ground arith) (find_vma-FoundVma w.vm_end va vs s.2))
]

abbrev pub IsCovered : List VmAreaStruct → (start end : ℕ) → Type 0
IsCovered vs start end = (a : ℕ) → start ≤ a → a < end → flags_at vs a ≢ none

covered_from-IsCovered :
    (fuel va end low : ℕ) (vs : List VmAreaStruct)
    → IsSorted low vs
    → above va vs < fuel
    → (covered_from fuel vs va end ≡ true) ↔ IsCovered vs va end
unfolding covered_from
covered_from-IsCovered zero va end low vs s f = absurd (omega arith)
covered_from-IsCovered (suc fuel) va end low vs s f = elim (Bool-cases (leb end va)) [
  | inl e ↦ rw e ((λ _ a l h. absurd (ground arith)), (λ _. refl))
  | inr e ↦ rw e (
      further (λ wa n. covered_from-IsCovered fuel wa end low vs s n) (ground arith)
        (find_vma-FoundVma low va vs s))
]
  where
    further :
        ((wa : ℕ) → above wa vs < fuel → (covered_from fuel vs wa end ≡ true) ↔ IsCovered vs wa end)
        → va < end
        → {o : Option VmAreaStruct} → FoundVma va vs o
        → ((elim o as (λ _. Bool) [
          | none ↦ false
          | some v ↦ if ltb va v.vm_start then false else covered_from fuel vs v.vm_end end
        ])
            ≡ true)
          ↔ IsCovered vs va end
    further again b (missing free) =
        ((λ e. absurd (ground arith)), (λ c. absurd (c va (omega arith) b free)))
    further again b (found v e n held free) = elim (Bool-cases (ltb va v.vm_start)) [
      | inl g ↦
          rw g (
            (λ e. absurd (ground arith)),
            (λ c. absurd (c va (omega arith) b (free (ground arith)))),
          )
      | inr g ↦
          let (to, from) = again v.vm_end (omega arith) in
          rw g (
            (λ e a l h. elim (Bool-cases (ltb a v.vm_end)) [
              | inl i ↦ λ z. ground (arith, held a)
              | inr i ↦ to e a (ground arith) h
            ]),
            (λ c. from (λ a l h. c a (omega arith) h)),
          )
    ]

-- Where the areas are sorted, the loop of mprotect_covered has enough fuel, and it answers true
-- exactly if every address of the range is mapped.
pub mprotect_covered-IsCovered :
    (vs : List VmAreaStruct) (start end : ℕ)
    → IsSorted 0 vs
    → (mprotect_covered vs start end ≡ true) ↔ IsCovered vs start end
unfolding mprotect_covered
mprotect_covered-IsCovered vs start end s =
    covered_from-IsCovered (suc (length vs)) start end 0 vs s (omega (arith, above-length start vs))
