-- ===== src/Mm/Mmap/Search.antt =====
-- `find_unmapped_area` of mm/mmap.c: the search for a gap.
use mini_os.Prelude.{
  ℕ, ◌+◌, ◌*◌, ◌%◌, ◌≤◌, ◌<◌, ◌≡◌, ◌⊎◌, ◌&&◌, none, List, [], ◌∷◌, refl, arith, leb, ltb,
  if◌then◌else◌, Bool-cases, inl, inr,
}
use mini_os.Mm.Mmap.{
  VmAreaStruct, MmStruct, word, page_size, page_up, user_stack_bottom, stack_limit, area_from,
  find_unmapped_area,
}
use mini_os.Mm.Mmap.Areas.{IsSorted, flags_at, flags_at_below}

pub page_up_bounds :
    (x : ℕ)
    → x + page_size ≤ word
    → (x ≤ page_up x) × (page_up x < x + page_size) × (page_up x % page_size ≡ 0)
page_up_bounds x h = omega arith

-- Every area ends at `top` or below.
abbrev pub EndsBelow : ℕ → List VmAreaStruct → Type 0
EndsBelow top [] = top ≤ top
EndsBelow top (v ∷ vs) = (v.vm_end ≤ top) × EndsBelow top vs

-- The pages from `va` on are free, and end at the limit or below.
pub record IsGap (len limit last : ℕ) (vs : List VmAreaStruct) (va : ℕ) : Type 0 where
  pub from : last ≤ va
  pub to : va + len ≤ limit
  pub page : va % page_size ≡ 0
  pub free : (a : ℕ) → va ≤ a → a < va + len → flags_at vs a ≡ none

area_from-IsGap :
    (len limit top low last : ℕ) (vs : List VmAreaStruct)
    → IsSorted low vs
    → EndsBelow top vs
    → low ≤ last
    → last < top + page_size
    → last % page_size ≡ 0
    → top + 2 * page_size + len ≤ word
    → (area_from len limit last vs ≡ 0) ⊎ IsGap len limit last vs (area_from len limit last vs)
unfolding area_from
area_from-IsGap len limit top low last [] s t g l p w =
    elim (Bool-cases (leb ((last + len) % word) limit)) [
      | inl e ↦
          rw e
            (inr (record { from = omega arith; to = ground arith; page = p; free = λ a u v. refl }))
      | inr e ↦ rw e (inl refl)
    ]
area_from-IsGap len limit top low last (v ∷ vs) s t g l p w =
    elim (Bool-cases (leb ((last + len) % word) v.vm_start && leb ((last + len) % word) limit)) [
      | inl e ↦ rw e (
          inr (record {
            from = omega arith;
            to = ground arith;
            page = p;
            free = λ a x y.
                flags_at_below v.vm_start a (v ∷ vs) ((omega arith), s.1, s.2) (ground arith);
          }))
      | inr e ↦
          let next = if ltb last v.vm_end then page_up v.vm_end else last in
          let bounds = page_up_bounds v.vm_end (omega (arith, t.0)) in
          rw e (
            pass_over next (ground arith) (ground arith) (
              area_from-IsGap len limit top v.vm_end next vs s.2 t.1 (ground arith)
                (ground (arith, t.0)) (ground arith) w))
    ]
  where
    pass_over :
        {o : ℕ} (next : ℕ)
        → last ≤ next
        → v.vm_end ≤ next
        → (o ≡ 0) ⊎ IsGap len limit next vs o
        → (o ≡ 0) ⊎ IsGap len limit last (v ∷ vs) o
    pass_over next f e (inl z) = inl z
    pass_over {o} next f e (inr r) = inr (record {
      from = omega (arith, r.from);
      to = r.to;
      page = r.page;
      free = λ a x y. ground (arith, r.free a, r.from);
    })

-- Where the areas are sorted and end at `top` or below, mmap_base is at most `top`, and `top` with
-- the length and two pages does not wrap, find_unmapped_area returns 0 or an address from mmap_base
-- on from which the length is free and ends at the stack's limit or below.
pub find_unmapped_area-IsGap :
    (m : MmStruct) (len top : ℕ)
    → IsSorted 0 m.mmap
    → EndsBelow top m.mmap
    → m.mmap_base ≤ top
    → top + 2 * page_size + len ≤ word
    → (find_unmapped_area m len ≡ 0)
      ⊎ IsGap len (stack_limit m user_stack_bottom) m.mmap_base m.mmap (find_unmapped_area m len)
unfolding find_unmapped_area
find_unmapped_area-IsGap m len top s t b w =
    let bounds = page_up_bounds m.mmap_base (omega arith) in
    lower (
      area_from-IsGap len (stack_limit m user_stack_bottom) top 0 (page_up m.mmap_base) m.mmap s t
        (omega arith) (omega arith) (omega arith) w)
  where
    lower :
        {o : ℕ}
        → (o ≡ 0) ⊎ IsGap len (stack_limit m user_stack_bottom) (page_up m.mmap_base) m.mmap o
        → (o ≡ 0) ⊎ IsGap len (stack_limit m user_stack_bottom) m.mmap_base m.mmap o
    lower (inl z) = inl z
    lower (inr g) = inr (record {
      from = omega (arith, g.from, page_up_bounds m.mmap_base (omega arith));
      to = g.to;
      page = g.page;
      free = g.free;
    })
