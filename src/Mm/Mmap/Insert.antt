-- ===== src/Mm/Mmap/Insert.antt =====
-- `insert_vma` of mm/mmap.c: a new area between the others.
use mini_os.Prelude.{
  ℕ, ◌≤◌, ◌<◌, ◌≡◌, ◌≢◌, true, false, Option, none, some, List, [], ◌∷◌, refl, arith, leb, ltb,
  if◌then◌else◌, Bool-cases, inl, inr,
}
use mini_os.Mm.Mmap.{VmAreaStruct, reaches, place_vma, insert_vma}
use mini_os.Mm.Mmap.Areas.{IsSorted, inside, flags_at, flags_at_below}

-- The new area is put among the others, none of which holds an address of it; or it is refused, since
-- it begins below `low` or some address of it is held.
pub data Placed (low : ℕ) (new : VmAreaStruct) (vs : List VmAreaStruct)
    : Option (List VmAreaStruct) → Type 0 where
  placed :
      (ws : List VmAreaStruct)
      → IsSorted low ws
      → ((a : ℕ) → flags_at ws a ≡ (if inside new a then some new.vm_flags else flags_at vs a))
      → ((a : ℕ) → inside new a ≡ true → flags_at vs a ≡ none)
      → Placed low new vs (some ws)
  low_start : new.vm_start < low → Placed low new vs none
  overlaps : (a : ℕ) → inside new a ≡ true → flags_at vs a ≢ none → Placed low new vs none

Placed-behind :
    {low : ℕ} {new v : VmAreaStruct} {vs : List VmAreaStruct} {o : Option (List VmAreaStruct)}
    → low ≤ v.vm_start
    → v.vm_start < v.vm_end
    → v.vm_start < new.vm_start
    → new.vm_start < new.vm_end
    → Placed v.vm_end new vs o
    → Placed low new (v ∷ vs) (elim o [ none ↦ none | some ws ↦ some (v ∷ ws) ])
Placed-behind {new = new} {v = v} h n b m (placed ws s view free) =
    let apart : v.vm_end ≤ new.vm_start =
      ground (arith, view new.vm_start, flags_at_below v.vm_end new.vm_start ws) in
    placed (v ∷ ws) (h, n, s) (λ a. ground (arith, view a)) (λ a i. ground (arith, free a))
Placed-behind {new = new} h n b m (low_start l) =
    overlaps new.vm_start (ground arith) (λ e. ground arith)
Placed-behind h n b m (overlaps a i o) = overlaps a i (λ e. ground arith)

place_vma-Placed :
    (low : ℕ) (prev : Option VmAreaStruct) (new : VmAreaStruct) (vs : List VmAreaStruct)
    → new.vm_start < new.vm_end
    → IsSorted low vs
    → reaches prev new ≡ ltb new.vm_start low
    → Placed low new vs (place_vma prev new vs)
unfolding place_vma
place_vma-Placed low prev new [] m s r = elim (Bool-cases (ltb new.vm_start low)) [
  | inl e ↦ rw (r, e) (low_start (ground arith))
  | inr e ↦ rw (r, e) (placed (new ∷ []) (ground arith) (λ a. refl) (λ a i. refl))
]
place_vma-Placed low prev new (v ∷ vs) m s r = elim (Bool-cases (ltb v.vm_start new.vm_start)) [
  | inl b ↦ rw b (
      Placed-behind s.0 s.1 (ground arith) m (place_vma-Placed v.vm_end (some v) new vs m s.2 refl))
  | inr b ↦ elim (Bool-cases (ltb v.vm_start new.vm_end)) [
    | inl e ↦ rw (b, e) (overlaps v.vm_start (ground arith) (λ e. ground arith))
    | inr e ↦ elim (Bool-cases (ltb new.vm_start low)) [
      | inl f ↦ rw (b, e, r, f) (low_start (ground arith))
      | inr f ↦
          rw (b, e, r, f)
            (placed (new ∷ v ∷ vs) (ground arith, m, (ground arith, s.1, s.2)) (λ a. refl)
              (λ a i. flags_at_below v.vm_start a (v ∷ vs) (ground arith, s.1, s.2) (ground arith)))
    ]
  ]
]

-- A nonempty area is put among sorted areas, or it overlaps one of them and is refused.
pub insert_vma-Placed :
    (new : VmAreaStruct) (vs : List VmAreaStruct)
    → new.vm_start < new.vm_end
    → IsSorted 0 vs
    → Placed 0 new vs (insert_vma new vs)
unfolding insert_vma
insert_vma-Placed new vs m s =
    let proper : leb new.vm_end new.vm_start ≡ false = ground arith in
    rw proper (place_vma-Placed 0 none new vs m s (ground arith))
