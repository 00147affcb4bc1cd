-- ===== src/Mm/Slub/Objects.antt =====
-- mm/slub.c: which objects are handed out.
use mini_os.Prelude.{
  ℕ, ◌+◌, ◌-◌, ◌%◌, ◌<◌, ◌≡◌, ◌∙◌, Bool, true, false, not, ◌&&◌, Option, none, some, List, [], ◌∷◌,
  ap, sym, arith, ◌==◌, has, distinct, Bool-cases, inl, inr,
}
use mathlib.Core.Path.{subst}
use mini_os.Mm.PageAlloc.{page_size}
use mini_os.Mm.Slub.{Slab, KmemCache, slab_object_offset, slab_objects_per_page, slab_from_object}
use mini_os.Mm.Slub.Outside.{outside, outside-cons}
use mini_os.Mm.Slub.Slots.{slots, carve-distinct}

abbrev pub is_nil : List ℕ → Bool
is_nil [] = true
is_nil (x ∷ xs) = false

-- What holds of a slab, but for how many objects are out, which is `n`.
pub record SlabShape (size p : ℕ) (s : Slab) : Type 0 where
  pub counts : s.inuse ≡ outside (slots size p) s.freelist
  pub once : distinct s.freelist ≡ true
  pub within : (o : ℕ) → has o s.freelist ≡ true → has o (slots size p) ≡ true
  pub objects : s.objects ≡ slab_objects_per_page size
  pub aligned : p % page_size ≡ 0

-- Each slab counts the objects that are out, has some out, and is in the chain of partial slabs
-- exactly if it has one free.
pub record CacheValid (c : KmemCache) : Type 0 where
  pub size : 0 < c.object_size
  pub shape : (p : ℕ) (s : Slab) → c.slab p ≡ some s → SlabShape c.object_size p s
  pub used : (p : ℕ) (s : Slab) → c.slab p ≡ some s → 0 < s.inuse
  pub listed : (p : ℕ) (s : Slab) → c.slab p ≡ some s → has p c.partial ≡ not (is_nil s.freelist)
  pub once : distinct c.partial ≡ true
  pub live : (p : ℕ) → c.slab p ≡ none → has p c.partial ≡ false

abbrev pub out_of : (size p o : ℕ) → Option Slab → Bool
out_of size p o none = false
out_of size p o (some s) = has o (slots size p) && not (has o s.freelist)

-- Whether the object is handed out.
abbrev pub allocated : KmemCache → ℕ → Bool
allocated c o = out_of c.object_size (slab_from_object o) o (c.slab (slab_from_object o))

pub slots-distinct : (size p : ℕ) → 0 < size → distinct (slots size p) ≡ true
slots-distinct size p z =
    carve-distinct (p + slab_object_offset size) size (slab_objects_per_page size) z

-- The object goes out of the free list.
pub popped-SlabShape :
    {size p : ℕ} {s : Slab} (o : ℕ) (os : List ℕ)
    → 0 < size
    → s.freelist ≡ o ∷ os
    → SlabShape size p s
    → SlabShape size p (record s { freelist = os; inuse = s.inuse + 1 })
popped-SlabShape {size} {p} {s} o os z e h =
    let first : has o s.freelist ≡ true = ap (has o) e ∙ ground arith in
    let in_slots : has o (slots size p) ≡ true = h.within o first in
    let front : distinct (o ∷ os) ≡ true = ap distinct (sym e) ∙ h.once in
    let alone : has o os ≡ false = ground arith in
    record {
      counts = omega (
        arith,
        h.counts,
        ap (outside (slots size p)) e,
        outside-cons (slots size p) o os (slots-distinct size p z) in_slots alone,
      );
      once = ground arith;
      within = λ x m. h.within x (ap (has x) e ∙ ground arith);
      objects = h.objects;
      aligned = h.aligned;
    }

pub pushed-SlabShape :
    {size p : ℕ} {s : Slab} (o : ℕ)
    → 0 < size
    → has o (slots size p) ≡ true
    → has o s.freelist ≡ false
    → SlabShape size p s
    → SlabShape size p (record s { freelist = o ∷ s.freelist; inuse = s.inuse - 1 })
pushed-SlabShape {size} {p} {s} o z i n h = record {
  counts =
      omega
        (arith, h.counts, outside-cons (slots size p) o s.freelist (slots-distinct size p z) i n);
  once = ground (arith, h.once);
  within = λ x m. elim (Bool-cases (x == o)) [
    | inl e ↦ let same : x ≡ o = ground arith in ap (λ y. has y (slots size p)) same ∙ i
    | inr e ↦ h.within x (ground arith)
  ];
  objects = h.objects;
  aligned = h.aligned;
}

-- Only page `p` and its place in the chain may differ.
pub record Touches (c c' : KmemCache) (p : ℕ) : Type 0 where
  pub size : c'.object_size ≡ c.object_size
  pub slabs : (q : ℕ) → (q == p) ≡ false → c'.slab q ≡ c.slab q
  pub partials : (q : ℕ) → (q == p) ≡ false → has q c'.partial ≡ has q c.partial

-- What page `p` has to satisfy afterwards.
pub record PageValid (c : KmemCache) (p : ℕ) : Type 0 where
  pub slab :
      (s : Slab)
      → c.slab p ≡ some s
      → SlabShape c.object_size p s × (0 < s.inuse) × (has p c.partial ≡ not (is_nil s.freelist))
  pub gone : c.slab p ≡ none → has p c.partial ≡ false
  pub once : distinct c.partial ≡ true

pub touched-CacheValid :
    {c c' : KmemCache} (p : ℕ) → CacheValid c → Touches c c' p → PageValid c' p → CacheValid c'
touched-CacheValid {c} {c'} p v t w = record {
  size = omega (arith, v.size, t.size);
  shape = λ q s e. elim (Bool-cases (q == p)) [
    | inl f ↦
        let same : p ≡ q = ground arith in
        subst (λ r. SlabShape c'.object_size r s) same (w.slab s (ap c'.slab same ∙ e)).0
    | inr f ↦ subst (λ n. SlabShape n q s) (sym t.size) (v.shape q s (sym (t.slabs q f) ∙ e))
  ];
  used = λ q s e. elim (Bool-cases (q == p)) [
    | inl f ↦ let same : p ≡ q = ground arith in (w.slab s (ap c'.slab same ∙ e)).1
    | inr f ↦ v.used q s (sym (t.slabs q f) ∙ e)
  ];
  listed = λ q s e. elim (Bool-cases (q == p)) [
    | inl f ↦
        let same : p ≡ q = ground arith in
        ap (λ r. has r c'.partial) (sym same) ∙ (w.slab s (ap c'.slab same ∙ e)).2
    | inr f ↦ t.partials q f ∙ v.listed q s (sym (t.slabs q f) ∙ e)
  ];
  once = w.once;
  live = λ q e. elim (Bool-cases (q == p)) [
    | inl f ↦
        let same : p ≡ q = ground arith in
        ap (λ r. has r c'.partial) (sym same) ∙ w.gone (ap c'.slab same ∙ e)
    | inr f ↦ t.partials q f ∙ v.live q (sym (t.slabs q f) ∙ e)
  ];
}

-- The objects of the other pages are as before.
pub allocated_elsewhere :
    {c c' : KmemCache} {p : ℕ} (x : ℕ)
    → Touches c c' p
    → (slab_from_object x == p) ≡ false
    → allocated c' x ≡ allocated c x
allocated_elsewhere {c} {c'} x t f =
    ap (λ n. out_of n (slab_from_object x) x (c'.slab (slab_from_object x))) t.size
    ∙ ap (out_of c.object_size (slab_from_object x) x) (t.slabs (slab_from_object x) f)

pub allocated_here :
    (c : KmemCache) (p x : ℕ) {slot : Option Slab} (size : ℕ)
    → (slab_from_object x == p) ≡ true
    → c.object_size ≡ size
    → c.slab p ≡ slot
    → allocated c x ≡ out_of size p x slot
allocated_here c p x {slot} size f n e =
    let same : slab_from_object x ≡ p = ground arith in
    ap (λ q. out_of c.object_size q x (c.slab q)) same
    ∙ ap (λ m. out_of m p x (c.slab p)) n
    ∙ ap (out_of size p x) e
