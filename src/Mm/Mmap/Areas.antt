-- ===== src/Mm/Mmap/Areas.antt =====
-- The abstract view of the areas of mm/mmap.c: a function from addresses to flags.
use mini_os.Prelude.{
  ℕ, ◌≤◌, ◌<◌, ◌≡◌, ◌∙◌, Bool, false, ◌&&◌, Option, none, some, List, [], ◌∷◌, refl, arith, leb,
  ltb, if◌then◌else◌, Bool-cases, inl, inr,
}
use mini_os.Mm.Mmap.{VmAreaStruct, find_vma}

-- The areas lie in order above `low`, none is empty, and none reaches into the next.
abbrev pub IsSorted : ℕ → List VmAreaStruct → Type 0
IsSorted low [] = low ≤ low
IsSorted low (v ∷ vs) = (low ≤ v.vm_start) × (v.vm_start < v.vm_end) × IsSorted v.vm_end vs

abbrev pub inside : VmAreaStruct → ℕ → Bool
inside v a = leb v.vm_start a && ltb a v.vm_end

-- The flags of the first area that holds the address.
abbrev pub flags_at : List VmAreaStruct → ℕ → Option ℕ
flags_at [] a = none
flags_at (v ∷ vs) a = if inside v a then some v.vm_flags else flags_at vs a

-- No address below is mapped.
pub flags_at_below :
    (low a : ℕ) (vs : List VmAreaStruct) → IsSorted low vs → a < low → flags_at vs a ≡ none
flags_at_below low a [] s h = refl
flags_at_below low a (v ∷ vs) s h = ground (arith, flags_at_below v.vm_end a vs)

pub IsSorted-lower :
    (low low' : ℕ) (vs : List VmAreaStruct) → IsSorted low vs → low' ≤ low → IsSorted low' vs
IsSorted-lower low low' [] s h = omega arith
IsSorted-lower low low' (v ∷ vs) s h = (omega arith, s.1, s.2)

-- What a caller of `find_vma` finds at the address: the area's flags, if it starts at or below.
abbrev pub found_at : Option VmAreaStruct → ℕ → Option ℕ
found_at none a = none
found_at (some v) a = if leb v.vm_start a then some v.vm_flags else none

-- Where the areas are sorted, the area that find_vma finds, taken only if it begins at the address
-- or below, has the flags of the address, and where there is none the address is not mapped.
find_vma-flags_at :
    (low : ℕ) (vs : List VmAreaStruct) (a : ℕ)
    → IsSorted low vs
    → found_at (find_vma vs a) a ≡ flags_at vs a
unfolding find_vma
find_vma-flags_at low [] a s = refl
find_vma-flags_at low (v ∷ vs) a s = elim (Bool-cases (ltb a v.vm_end)) [
  | inl e ↦ rw e (ground (arith, flags_at_below v.vm_end a vs))
  | inr e ↦ rw e (find_vma-flags_at v.vm_end vs a s.2 ∙ outside e)
]
  where
    outside :
        ltb a v.vm_end ≡ false
        → flags_at vs a ≡ (if leb v.vm_start a && false then some v.vm_flags else flags_at vs a)
    outside e = ground arith
