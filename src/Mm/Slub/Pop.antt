-- ===== src/Mm/Slub/Pop.antt =====
-- An object that is taken off the free list of a slab of mm/slub.c.
use mini_os.Prelude.{
  ℕ, ◌+◌, ◌<◌, ◌≡◌, ◌∙◌, Bool, true, false, not, ◌&&◌, ◌||◌, Option, none, some, List, ◌∷◌, refl,
  ap, sym, arith, ◌==◌, has, distinct, Bool-cases, inl, inr,
}
use mathlib.Core.Path.{subst}
use mathlib.Core.Bool.{true≢false}
use mathlib.Core.Option.{some-injective, some-ne-none}
use mini_os.Mm.Slub.{Slab, KmemCache, slab_from_object}
use mini_os.Mm.Slub.Slots.{slots, slots-slab_from_object}
use mini_os.Mm.Slub.Objects.{
  is_nil, SlabShape, CacheValid, out_of, allocated, popped-SlabShape, Touches, PageValid,
  touched-CacheValid, allocated_elsewhere, allocated_here,
}

-- No object and no other change of what is handed out, or an object that was not handed out and now is.
pub data IsAlloc (c : KmemCache) : Option ℕ × KmemCache → Type 0 where
  no_memory :
      (c' : KmemCache)
      → CacheValid c'
      → ((x : ℕ) → allocated c' x ≡ allocated c x)
      → IsAlloc c (none, c')
  object :
      (o : ℕ) (c' : KmemCache)
      → CacheValid c'
      → allocated c o ≡ false
      → ((x : ℕ) → allocated c' x ≡ (x == o || allocated c x))
      → IsAlloc c (some o, c')

pub popped_lem :
    {c c' : KmemCache} (p : ℕ) (s : Slab) (o : ℕ) (os : List ℕ)
    → CacheValid c
    → Touches c c' p
    → SlabShape c.object_size p s
    → s.freelist ≡ o ∷ os
    → c'.slab p ≡ some (record s { freelist = os; inuse = s.inuse + 1 })
    → ((x : ℕ) → out_of c.object_size p x (c.slab p) ≡ out_of c.object_size p x (some s))
    → has p c'.partial ≡ not (is_nil os)
    → distinct c'.partial ≡ true
    → IsAlloc c (some o, c')
popped_lem {c} {c'} p s o os v t h e slot before listed once =
    object o c' (touched-CacheValid p v t page) was_free now
  where
    size : ℕ
    size = c.object_size

    after : Slab
    after = record s { freelist = os; inuse = s.inuse + 1 }

    shape : SlabShape size p after
    shape = popped-SlabShape o os v.size e h

    page : PageValid c' p
    page = record {
      slab = λ s' e'.
          let same : after ≡ s' = some-injective after s' (sym slot ∙ e') in
          subst
            (λ r.
              SlabShape c'.object_size p r
              × (0 < r.inuse)
              × (has p c'.partial ≡ not (is_nil r.freelist)))
            same (subst (λ n. SlabShape n p after) (sym t.size) shape, omega arith, listed);
      gone = λ e'. absurd (some-ne-none after (sym slot ∙ e'));
      once = once;
    }

    self : has o (o ∷ os) ≡ true
    self = ground arith

    in_list : has o s.freelist ≡ true
    in_list = ap (has o) e ∙ self

    in_slots : has o (slots size p) ≡ true
    in_slots = h.within o in_list

    home : slab_from_object o ≡ p
    home = slots-slab_from_object size p o v.size h.aligned in_slots

    at_p : (slab_from_object o == p) ≡ true
    at_p = rw home (ground arith)

    none_out : (b : Bool) → (b && false) ≡ false
    none_out b = ground arith

    was_free : allocated c o ≡ false
    was_free =
        allocated_here c p o size at_p refl refl
        ∙ before o
        ∙ ap (λ b. has o (slots size p) && not b) in_list
        ∙ none_out (has o (slots size p))

    alone : has o os ≡ false
    alone = let front : distinct (o ∷ os) ≡ true = ap distinct (sym e) ∙ h.once in ground arith

    apart : (x : ℕ) → (slab_from_object x == p) ≡ false → (x == o) ≡ false
    apart x f = elim (Bool-cases (x == o)) [
      | inr g ↦ g
      | inl g ↦
          let same : o ≡ x = ground arith in
          absurd (true≢false (sym at_p ∙ ap (λ y. slab_from_object y == p) same ∙ f))
    ]

    there : (x : ℕ) → (x == o) ≡ true → (has x (slots size p) ≡ true) × (has x os ≡ false)
    there x g =
        let same : x ≡ o = ground arith in
        (ap (λ y. has y (slots size p)) same ∙ in_slots, ap (λ y. has y os) same ∙ alone)

    step :
        (x : ℕ)
        → out_of size p x (some after) ≡ (x == o || (has x (slots size p) && not (has x (o ∷ os))))
    step x = elim (Bool-cases (x == o)) [
      | inl g ↦ rw (g, (there x g).0, (there x g).1) refl
      | inr g ↦ rw g refl
    ]

    now : (x : ℕ) → allocated c' x ≡ (x == o || allocated c x)
    now x = elim (Bool-cases (slab_from_object x == p)) [
      | inr f ↦ allocated_elsewhere x t f ∙ rw (apart x f) refl
      | inl f ↦
          allocated_here c' p x size f t.size slot
          ∙ step x
          ∙ ap (λ fs. x == o || (has x (slots size p) && not (has x fs))) (sym e)
          ∙ ap (λ b. x == o || b) (sym (allocated_here c p x size f refl refl ∙ before x))
    ]
