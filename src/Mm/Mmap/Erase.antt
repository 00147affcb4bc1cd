-- ===== src/Mm/Mmap/Erase.antt =====
-- `vma_erase_range` of mm/mmap.c: taking a range of addresses out of the areas.
use mini_os.Prelude.{
  ℕ, ◌+◌, ◌-◌, ◌≤◌, ◌<◌, ◌≡◌, ◌⊎◌, ◌∙◌, ◌&&◌, ◌||◌, Option, none, some, List, [], ◌∷◌, ◌++◌, refl,
  arith, leb, ltb, if◌then◌else◌, Bool-cases, inl, inr, length,
}
use mini_os.Kernel.Task.{Ret, ok, err, enomem}
use mini_os.Mm.Mmap.{VmAreaStruct, cut_vma, vma_erase_range}
use mini_os.Mm.Mmap.Areas.{IsSorted, inside, flags_at, IsSorted-lower}

-- The pieces of an area stay within it, in order.
cut-IsSorted :
    (start end low : ℕ) (v : VmAreaStruct) (rest : List VmAreaStruct)
    → start ≤ end
    → low ≤ v.vm_start
    → v.vm_start < v.vm_end
    → IsSorted v.vm_end rest
    → IsSorted low (cut_vma start end v ++ rest)
cut-IsSorted start end low v rest h l n s =
    elim (Bool-cases (leb v.vm_end start || leb end v.vm_start)) [
      | inl o ↦ rw o (l, n, s)
      | inr o ↦ elim (Bool-cases (leb start v.vm_start && leb v.vm_end end)) [
        | inl c ↦ rw (o, c) (IsSorted-lower v.vm_end low rest s (omega arith))
        | inr c ↦ elim (Bool-cases (leb start v.vm_start)) [
          | inl b ↦ rw (o, c, b) (ground arith, ground arith, s)
          | inr b ↦ elim (Bool-cases (leb v.vm_end end)) [
            | inl d ↦
                rw (o, c, b, d)
                  (l, ground arith, IsSorted-lower v.vm_end start rest s (ground arith))
            | inr d ↦ rw (o, c, b, d) (l, ground arith, (h, ground arith, s))
          ]
        ]
      ]
    ]

-- The pieces of an area hold its addresses outside the range.
flags_at-cut :
    (start end a : ℕ) (v : VmAreaStruct) (rest : List VmAreaStruct)
    → start ≤ end
    → v.vm_start < v.vm_end
    → flags_at (cut_vma start end v ++ rest) a ≡ (
        if inside v a
        then (if leb start a && ltb a end then flags_at rest a else some v.vm_flags)
        else flags_at rest a)
flags_at-cut start end a v rest h n = ground arith

-- What is left lies in order, and holds the addresses that it held, less those of the range.
pub record Erased (low start end : ℕ) (vs : List VmAreaStruct) (ws : List VmAreaStruct)
    : Type 0 where
  pub sorted : IsSorted low ws
  pub view : (a : ℕ) → flags_at ws a ≡ (if leb start a && ltb a end then none else flags_at vs a)

pub vma_erase_range-Erased :
    (room start end low : ℕ) (vs : List VmAreaStruct)
    → start ≤ end
    → IsSorted low vs
    → let (ret, ws, left) = vma_erase_range room start end vs in
      IsSorted low ws × ((ret ≡ err enomem) ⊎ ((ret ≡ ok 0) × Erased low start end vs ws))
unfolding vma_erase_range
vma_erase_range-Erased room start end low [] h s =
    (s, inr (refl, record { sorted = s; view = λ a. ground arith }))
vma_erase_range-Erased room start end low (v ∷ vs) h s =
    elim (Bool-cases (ltb (room + 1) (length (cut_vma start end v)))) [
      | inl e ↦ rw e (s, inl refl)
      | inr e ↦ rw e (
          erased_on (vma_erase_range (room + 1 - length (cut_vma start end v)) start end vs) (
            vma_erase_range-Erased (room + 1 - length (cut_vma start end v)) start end v.vm_end vs h
              s.2))
    ]
  where
    view_on :
        {x : Option ℕ} (a : ℕ)
        → x ≡ (if leb start a && ltb a end then none else flags_at vs a)
        → (if inside v a then (if leb start a && ltb a end then x else some v.vm_flags) else x)
          ≡ (if leb start a && ltb a end then none else flags_at (v ∷ vs) a)
    view_on a e = ground arith

    erased_on :
        (out : Ret × List VmAreaStruct × ℕ)
        → IsSorted v.vm_end out.1
          × ((out.0 ≡ err enomem) ⊎ ((out.0 ≡ ok 0) × Erased v.vm_end start end vs out.1))
        → IsSorted low (cut_vma start end v ++ out.1)
          × ((out.0 ≡ err enomem)
              ⊎ ((out.0 ≡ ok 0) × Erased low start end (v ∷ vs) (cut_vma start end v ++ out.1)))
    erased_on out (t, inl e) = (cut-IsSorted start end low v out.1 h s.0 s.1 t, inl e)
    erased_on out (t, inr (e, r)) =
        let whole = cut-IsSorted start end low v out.1 h s.0 s.1 t in
        (
          whole,
          inr (
            e,
            record {
              sorted = whole;
              view = λ a. flags_at-cut start end a v out.1 h s.1 ∙ view_on a (r.view a);
            },
          ),
        )
