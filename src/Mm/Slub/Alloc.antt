-- ===== src/Mm/Slub/Alloc.antt =====
-- `kmem_cache_alloc` of mm/slub.c.
use mini_os.Prelude.{
  ℕ, ◌+◌, ◌%◌, ◌≡◌, ◌⊎◌, ◌∙◌, Bool, true, false, not, ◌&&◌, Option, none, some, List, [], ◌∷◌, refl,
  ap, sym, arith, ◌==◌, if◌then◌else◌, has, without, distinct, length, update, Bool-cases,
  Option-cases, inl, inr, has-without_ne, has-without_self, distinct-without,
}
use mathlib.Core.Path.{subst}
use mini_os.Mm.PageAlloc.{page_size}
use mini_os.Mm.Slub.{
  Slab, KmemCache, slab_object_offset, slab_objects_per_page, slab_create, partial_link, has_free,
  first_partial, pop_object, take_object, kmem_cache_alloc,
}
use mini_os.Mm.Slub.Outside.{outside-all}
use mini_os.Mm.Slub.Slots.{slots, length-carve}
use mini_os.Mm.Slub.Objects.{is_nil, slots-distinct, SlabShape, CacheValid, out_of}
use mini_os.Mm.Slub.Pop.{IsAlloc, no_memory, popped_lem}

-- A page that the page allocator may give: none, or a page that no slab of the cache lies on.
abbrev pub IsFresh : KmemCache → Option ℕ → Type 0
IsFresh c none = Unit
IsFresh c (some p) = (p % page_size ≡ 0) × (c.slab p ≡ none)

list_cases : (fs : List ℕ) → (fs ≡ []) ⊎ ((o : ℕ) × (os : List ℕ) × (fs ≡ o ∷ os))
list_cases [] = inl refl
list_cases (o ∷ os) = inr (o, os, refl)

-- The first slab of the chain, where it has an object.
data Ready (c : KmemCache) : Option ℕ → Type 0 where
  ready :
      (p : ℕ) (s : Slab) (o : ℕ) (os : List ℕ)
      → c.slab p ≡ some s
      → s.freelist ≡ o ∷ os
      → Ready c (some p)
  not_ready : Ready c none

first_partial-Ready : (c : KmemCache) → Ready c (first_partial c)
first_partial-Ready c = of c.partial
  where
    of :
        (ps : List ℕ)
        → Ready c (elim ps as (λ _. Option ℕ) [
          | [] ↦ none
          | ◌∷◌ p ps ↦ if has_free (c.slab p) then some p else none
        ])
    of [] = not_ready
    of (p ∷ ps) = elim (Option-cases (c.slab p)) [
      | inl e ↦ rw e not_ready
      | inr (s, e) ↦ elim (list_cases s.freelist) [
        | inl f ↦ rw (e, f) not_ready
        | inr (o, os, f) ↦ rw (e, f) (ready p s o os e f)
      ]
    ]

-- The chain once an object of page `p` is taken, and `os` are left.
abbrev chain : (p : ℕ) → List ℕ → List ℕ → List ℕ
chain p ps os = elim os [ [] ↦ without p ps | ◌∷◌ q qs ↦ ps ]

has-chain : (p : ℕ) (ps os : List ℕ) (q : ℕ) → (q == p) ≡ false → has q (chain p ps os) ≡ has q ps
has-chain p ps [] q f = has-without_ne p q ps f
has-chain p ps (o ∷ os) q f = refl

has-chain_self :
    (p : ℕ) (ps os : List ℕ)
    → distinct ps ≡ true
    → has p ps ≡ true
    → has p (chain p ps os) ≡ not (is_nil os)
has-chain_self p ps [] d h = has-without_self p ps d
has-chain_self p ps (o ∷ os) d h = h

distinct-chain : (p : ℕ) (ps os : List ℕ) → distinct ps ≡ true → distinct (chain p ps os) ≡ true
distinct-chain p ps [] d = distinct-without p ps d
distinct-chain p ps (o ∷ os) d = d

take_partial :
    {c : KmemCache} (p : ℕ) (s : Slab) (o : ℕ) (os : List ℕ)
    → CacheValid c
    → c.slab p ≡ some s
    → s.freelist ≡ o ∷ os
    → IsAlloc c (take_object c p)
unfolding take_object
take_partial {c} p s o os v e f =
    rw (take_object, e, f)
      (popped_lem p s o os v
        (record {
          size = refl;
          slabs = λ q g. rw g refl;
          partials = λ q g. has-chain p c.partial os q g;
        })
        (v.shape p s e) f self (λ x. ap (out_of c.object_size p x) e)
        (has-chain_self p c.partial os v.once listed) (distinct-chain p c.partial os v.once))
  where
    same : (p == p) ≡ true
    same = ground arith

    self :
        update c.slab p (some (record s { freelist = os; inuse = s.inuse + 1 })) p
        ≡ some (record s { freelist = os; inuse = s.inuse + 1 })
    self = rw same refl

    listed : has p c.partial ≡ true
    listed = v.listed p s e ∙ ap (λ fs. not (is_nil fs)) f

take_object-pop :
    (c : KmemCache) (p : ℕ) (s : Slab) (o : ℕ) (os : List ℕ)
    → c.slab p ≡ some s
    → s.freelist ≡ o ∷ os
    → take_object c p ≡ pop_object c p s (o ∷ os)
unfolding take_object
take_object-pop c p s o os e f = rw (take_object, e, f) refl

abbrev fresh_slab : (size p : ℕ) → Slab
fresh_slab size p = record {
  freelist = slots size p;
  inuse = 0;
  objects = slab_objects_per_page size;
}

-- A new slab, of which one object is taken.
module _ {c : KmemCache} (p : ℕ) (v : CacheValid c) (aligned : p % page_size ≡ 0)
    (new : c.slab p ≡ none) where
  fresh-SlabShape : SlabShape c.object_size p (fresh_slab c.object_size p)
  fresh-SlabShape = record {
    counts = sym (outside-all (slots c.object_size p) (slots c.object_size p) (λ x h. h));
    once = slots-distinct c.object_size p v.size;
    within = λ o h. h;
    objects = refl;
    aligned = aligned;
  }

  nothing_out :
      (x : ℕ)
      → out_of c.object_size p x (c.slab p)
        ≡ out_of c.object_size p x (some (fresh_slab c.object_size p))
  nothing_out x = ap (out_of c.object_size p x) new ∙ none_left (has x (slots c.object_size p))
    where
      none_left : (b : Bool) → false ≡ (b && not b)
      none_left b = ground arith

  take_fresh :
      (slab_objects_per_page c.object_size == 0) ≡ false
      → IsAlloc c (
          take_object
            (record c {
              partial = p ∷ c.partial;
              slab = update c.slab p (some (fresh_slab c.object_size p));
            })
            p)
  unfolding take_object
  take_fresh g = elim (list_cases (slots c.object_size p)) [
    | inl e ↦ absurd (some_slot (ap length e))
    | inr (o, os, e) ↦
        subst (IsAlloc c)
          (sym (take_object-pop linked_in p (fresh_slab c.object_size p) o os (rw same refl) e))
          (popped_lem p (fresh_slab c.object_size p) o os v
            (record {
              size = refl;
              slabs = λ q f. rw f refl;
              partials = λ q f. has-chain p (p ∷ c.partial) os q f ∙ rw f refl;
            })
            fresh-SlabShape e (self o os) nothing_out
            (has-chain_self p (p ∷ c.partial) os once (rw same refl))
            (distinct-chain p (p ∷ c.partial) os once))
  ]
    where
      linked_in : KmemCache
      linked_in = record c {
        partial = p ∷ c.partial;
        slab = update c.slab p (some (fresh_slab c.object_size p));
      }

      same : (p == p) ≡ true
      same = ground arith

      some_slot : length (slots c.object_size p) ≡ 0 → ⊥
      some_slot z =
          let size =
            length-carve (p + slab_object_offset c.object_size) c.object_size
              (slab_objects_per_page c.object_size) in
          ground (arith, size)

      once : distinct (p ∷ c.partial) ≡ true
      once = ground (arith, v.once, v.live p new)

      self :
          (o : ℕ) (os : List ℕ)
          → update
              (update c.slab p (some (fresh_slab c.object_size p)))
              p
              (some (record (fresh_slab c.object_size p) { freelist = os; inuse = 0 + 1 }))
              p
            ≡ some (record (fresh_slab c.object_size p) { freelist = os; inuse = 0 + 1 })
      self o os = rw same refl

-- The second half of `kmem_cache_alloc`, on what `slab_create` returns.
abbrev finish : Option ℕ × KmemCache → Option ℕ × KmemCache
finish (made, c) = elim made as (λ _. Option ℕ × KmemCache) [
  | none ↦ (none, c)
  | some p ↦ take_object (partial_link c p) p
]

-- In a valid cache, where the page allocator gives no page or an aligned page on which no slab of
-- the cache lies, kmem_cache_alloc leaves the cache valid, and it returns no object and hands
-- nothing out, or it returns an object that was not handed out, which now is, while nothing changes
-- for any other object.
pub kmem_cache_alloc-IsAlloc :
    (page : Option ℕ) (c : KmemCache)
    → CacheValid c
    → IsFresh c page
    → IsAlloc c (kmem_cache_alloc page c)
unfolding kmem_cache_alloc slab_create
kmem_cache_alloc-IsAlloc page c v f = after (first_partial-Ready c)
  where
    created_none :
        (p : ℕ)
        → (slab_objects_per_page c.object_size == 0) ≡ true
        → slab_create (some p) c ≡ (none, record c { given_back = p ∷ c.given_back })
    created_none p g = rw g refl

    created :
        (p : ℕ)
        → (slab_objects_per_page c.object_size == 0) ≡ false
        → slab_create (some p) c
          ≡ (some p, record c { slab = update c.slab p (some (fresh_slab c.object_size p)) })
    created p g = rw g refl

    given : (p : ℕ) → CacheValid (record c { given_back = p ∷ c.given_back })
    given p = record {
      size = v.size;
      shape = v.shape;
      used = v.used;
      listed = v.listed;
      once = v.once;
      live = v.live;
    }

    from_page : (page : Option ℕ) → IsFresh c page → IsAlloc c (finish (slab_create page c))
    from_page none f = no_memory c v (λ x. refl)
    from_page (some p) f = elim (Bool-cases (slab_objects_per_page c.object_size == 0)) [
      | inl g ↦
          subst (λ out. IsAlloc c (finish out)) (sym (created_none p g))
            (no_memory _ (given p) (λ x. refl))
      | inr g ↦ subst (λ out. IsAlloc c (finish out)) (sym (created p g)) (take_fresh p v f.0 f.1 g)
    ]

    after :
        {o : Option ℕ}
        → Ready c o
        → IsAlloc c (elim o as (λ _. Option ℕ × KmemCache) [
          | some p ↦ take_object c p
          | none ↦ finish (slab_create page c)
        ])
    after (ready p s o os e g) = take_partial p s o os v e g
    after not_ready = from_page page f
