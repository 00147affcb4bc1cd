-- ===== src/Mm/Slub/Slots.antt =====
-- mm/slub.c: the places for objects in a slab.
use mini_os.Prelude.{
  ℕ, zero, suc, ◌+◌, ◌-◌, ◌*◌, ◌/◌, ◌%◌, ◌≤◌, ◌<◌, ◌≡◌, true, false, List, refl, ap, arith, leb,
  ◌==◌, has, distinct, length, Bool-cases, inl, inr,
}
use native.Mathlib.Nat.{suc-mul, div-mul-le_self}
use mini_os.Mm.PageAlloc.{page_size}
use mini_os.Mm.Slub.{slab_object_offset, slab_objects_per_page, slab_from_object, carve}

-- A place lies in the stretch that is cut up.
carve_bounds :
    (base size n o : ℕ)
    → 0 < size
    → has o (carve base size n) ≡ true
    → (base ≤ o) × (o < base + n * size)
unfolding carve
carve_bounds base size zero o z h = absurd (ground arith)
carve_bounds base size (suc n) o z h = elim (Bool-cases (o == base + n * size)) [
  | inl e ↦ (ground arith, ground (arith, suc-mul n size))
  | inr e ↦
      let (l, u) = carve_bounds base size n o z (ground arith) in
      (l, omega (arith, u, suc-mul n size, z))
]

pub carve-distinct : (base size n : ℕ) → 0 < size → distinct (carve base size n) ≡ true
unfolding carve
carve-distinct base size zero z = refl
carve-distinct base size (suc n) z = elim (Bool-cases (has (base + n * size) (carve base size n))) [
  | inl e ↦ absurd (omega (arith, carve_bounds base size n (base + n * size) z e))
  | inr e ↦ rw e (carve-distinct base size n z)
]

pub length-carve : (base size n : ℕ) → length (carve base size n) ≡ n
unfolding carve
length-carve base size zero = refl
length-carve base size (suc n) = ap suc (length-carve base size n)

-- The places of page `p`.
abbrev pub slots : (size p : ℕ) → List ℕ
slots size p = carve (p + slab_object_offset size) size (slab_objects_per_page size)

-- The places of a page lie on the page.
pub slots-slab_from_object :
    (size p o : ℕ)
    → 0 < size
    → p % page_size ≡ 0
    → has o (slots size p) ≡ true
    → slab_from_object o ≡ p
unfolding slab_objects_per_page
slots-slab_from_object size p o z a h =
    let off = slab_object_offset size in
    let (l, u) = carve_bounds (p + off) size (slab_objects_per_page size) o z h in
    elim (Bool-cases (leb page_size off)) [
      | inl e ↦ absurd (no_place l (upper e u))
      | inr e ↦ on_page (n_le e) l u
    ]
  where
    upper :
        leb page_size (slab_object_offset size) ≡ true
        → o < p + slab_object_offset size + slab_objects_per_page size * size
        → o < p + slab_object_offset size
    upper e u =
        let full : slab_objects_per_page size ≡ 0 = rw e refl in
        omega (arith, u, ap (λ n. n * size) full)

    no_place : p + slab_object_offset size ≤ o → o < p + slab_object_offset size → ⊥
    no_place l u = omega arith

    n_le :
        leb page_size (slab_object_offset size) ≡ false
        → slab_object_offset size + slab_objects_per_page size * size ≤ page_size
    n_le e =
        let per_page : slab_objects_per_page size ≡ (page_size - slab_object_offset size) / size =
          rw e refl in
        let some_left : slab_object_offset size < page_size = ground arith in
        omega (
          arith,
          ap (λ n. n * size) per_page,
          div-mul-le_self (page_size - slab_object_offset size) size,
          some_left,
        )

    on_page :
        slab_object_offset size + slab_objects_per_page size * size ≤ page_size
        → p + slab_object_offset size ≤ o
        → o < p + slab_object_offset size + slab_objects_per_page size * size
        → slab_from_object o ≡ p
    on_page n l u = omega arith
