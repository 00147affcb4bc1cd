-- ===== src/Mm/Slub/Tests.antt =====
-- The theorems on mm/slub.c at a cache of objects of 1024 bytes.
use mini_os.Prelude.{ℕ, ◌≡◌, true, some, none, Option, [], refl, arith, complement}
use mini_os.Mm.Slub.{
  KmemCache, kmem_cache_alloc, kmem_cache_free, slab_create, slab_object_offset,
  slab_objects_per_page, carve, take_object,
}
use mini_os.Mm.Slub.Objects.{CacheValid, allocated}
use mini_os.Mm.Slub.Alloc.{kmem_cache_alloc-IsAlloc}
use mini_os.Mm.Slub.Pop.{IsAlloc, no_memory, object}
use mini_os.Mm.Slub.Free.{IsFree, kmem_cache_free-IsFree}

abbrev empty : KmemCache
empty = record { object_size = 1024; partial = []; slab = λ p. none; given_back = [] }

empty-CacheValid : CacheValid empty
empty-CacheValid = record {
  size = omega arith;
  shape = λ p s e. absurd (ground arith);
  used = λ p s e. absurd (ground arith);
  listed = λ p s e. absurd (ground arith);
  once = refl;
  live = λ p e. refl;
}

kmem_cache_alloc-IsAlloc_example : IsAlloc empty (kmem_cache_alloc (some 0x5000) empty)
kmem_cache_alloc-IsAlloc_example =
    kmem_cache_alloc-IsAlloc (some 0x5000) empty empty-CacheValid (refl, refl)

abbrev one_out : KmemCache
one_out = (kmem_cache_alloc (some 0x5000) empty).1

IsAlloc-CacheValid : {c : KmemCache} {out : Option ℕ × KmemCache} → IsAlloc c out → CacheValid out.1
IsAlloc-CacheValid (no_memory c' v same) = v
IsAlloc-CacheValid (object o c' v free now) = v

one_out-CacheValid : CacheValid one_out
one_out-CacheValid =
    IsAlloc-CacheValid (kmem_cache_alloc-IsAlloc (some 0x5000) empty empty-CacheValid (refl, refl))

one_out-allocated : allocated one_out 0x5c00 ≡ true
unfolding kmem_cache_alloc slab_create slab_object_offset slab_objects_per_page carve take_object
    complement
one_out-allocated = refl

kmem_cache_free-IsFree_example : IsFree one_out 0x5c00 (kmem_cache_free one_out 0x5c00)
kmem_cache_free-IsFree_example =
    kmem_cache_free-IsFree one_out 0x5c00 one_out-CacheValid one_out-allocated
