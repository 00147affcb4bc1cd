-- ===== src/Mm/Slub.antt =====
-- mm/slub.c: one cache of objects of a size, cut from pages.
-- `slab p` is the header at the start of page `p`, where that page is a slab of the cache. The page
-- that `alloc_pages(0)` returns is an argument, and `given_back` are the pages freed, latest first.
pub mod Outside
pub mod Slots
pub mod Objects
pub mod Pop
pub mod Alloc
pub mod Free
mod Tests
use mini_os.Prelude.{
  ℕ, zero, suc, ◌+◌, ◌-◌, ◌*◌, ◌/◌, Bool, true, false, not, ◌&&◌, Option, none, some, List, [], ◌∷◌,
  ltb, leb, ◌==◌, if◌then◌else◌, bit_and, complement, has, without, update,
}
use mini_os.Mm.PageAlloc.{page_size}

pub record Slab : Type 0 where
  pub freelist : List ℕ
  pub inuse : ℕ
  pub objects : ℕ

pub record KmemCache : Type 0 where
  pub object_size : ℕ
  pub partial : List ℕ
  pub slab : ℕ → Option Slab
  pub given_back : List ℕ

-- `sizeof(struct slab)`
abbrev pub slab_header : ℕ
slab_header = 40

abbrev pub min_object_size : ℕ
min_object_size = 8

-- `align` is the size of an object, at least `MIN_OBJECT_SIZE`.
unfoldable pub slab_object_offset : (object_size : ℕ) → ℕ
slab_object_offset object_size =
    let align = if ltb object_size min_object_size then min_object_size else object_size in
    bit_and (slab_header + align - 1) (complement 32 (align - 1))

unfoldable pub slab_objects_per_page : (object_size : ℕ) → ℕ
slab_objects_per_page object_size =
    let off = slab_object_offset object_size in
    if leb page_size off then 0 else (page_size - off) / object_size

abbrev pub slab_from_object : ℕ → ℕ
slab_from_object obj = obj / page_size * page_size

-- The loop of `slab_create` over the first `n` objects: each goes to the front of the free list.
unfoldable pub carve : (base size n : ℕ) → List ℕ
carve base size zero = []
carve base size (suc n) = (base + n * size) ∷ carve base size n

unfoldable pub slab_create : Option ℕ → KmemCache → Option ℕ × KmemCache
slab_create none c = (none, c)
slab_create (some p) c =
    let objects = slab_objects_per_page c.object_size in
    let fresh : Slab = record {
      freelist = carve (p + slab_object_offset c.object_size) c.object_size objects;
      inuse = 0;
      objects = objects;
    } in
    if objects == 0
    then (none, record c { given_back = p ∷ c.given_back })
    else (some p, record c { slab = update c.slab p (some fresh) })

abbrev pub partial_link : KmemCache → ℕ → KmemCache
partial_link c p = record c { partial = p ∷ c.partial }

-- The slab whose list the next object comes from, if it is the first of the chain.
abbrev pub has_free : Option Slab → Bool
has_free none = false
has_free (some s) = elim s.freelist [ [] ↦ false | ◌∷◌ o os ↦ true ]

abbrev pub first_partial : KmemCache → Option ℕ
first_partial c = elim c.partial [
  | [] ↦ none
  | ◌∷◌ p ps ↦ if has_free (c.slab p) then some p else none
]

-- The end of `kmem_cache_alloc`. The two cases without an object do not come up.
abbrev pub pop_object : KmemCache → ℕ → Slab → List ℕ → Option ℕ × KmemCache
pop_object c p s [] = (none, c)
pop_object c p s (o ∷ os) = (
  some o,
  record c {
    slab = update c.slab p (some (record s { freelist = os; inuse = s.inuse + 1 }));
    partial = elim os [ [] ↦ without p c.partial | ◌∷◌ q qs ↦ c.partial ];
  },
)

unfoldable pub take_object : KmemCache → ℕ → Option ℕ × KmemCache
take_object c p = elim (c.slab p) as (λ _. Option ℕ × KmemCache) [
  | none ↦ (none, c)
  | some s ↦ pop_object c p s s.freelist
]

unfoldable pub kmem_cache_alloc : (page : Option ℕ) → KmemCache → Option ℕ × KmemCache
kmem_cache_alloc page c =
    let (made, c') = slab_create page c in
    elim (first_partial c) as (λ _. Option ℕ × KmemCache) [
      | some p ↦ take_object c p
      | none ↦ elim made as (λ _. Option ℕ × KmemCache) [
        | none ↦ (none, c')
        | some p ↦ take_object (partial_link c' p) p
      ]
    ]

unfoldable pub slab_destroy : KmemCache → ℕ → KmemCache
slab_destroy c p = record c {
  partial = without p c.partial;
  slab = update c.slab p none;
  given_back = p ∷ c.given_back;
}

-- The part of `kmem_cache_free` under the lock.
unfoldable pub put_object : KmemCache → (obj : ℕ) → Slab → KmemCache
put_object c obj s =
    let p = slab_from_object obj in
    let put : KmemCache = record c {
      slab = update c.slab p (some (record s { freelist = obj ∷ s.freelist; inuse = s.inuse - 1 }));
    } in
    if s.inuse - 1 == 0
    then slab_destroy put p
    else if s.inuse - 1 == s.objects - 1
    then partial_link put p
    else put

-- A pointer to no slab of the cache is ignored.
unfoldable pub kmem_cache_free : KmemCache → (obj : ℕ) → KmemCache
kmem_cache_free c obj = elim (c.slab (slab_from_object obj)) [
  | none ↦ c
  | some s ↦ put_object c obj s
]
