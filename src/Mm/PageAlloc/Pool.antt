-- ===== src/Mm/PageAlloc/Pool.antt =====
-- mm/page_alloc.c: where the pool lies is fixed by `page_alloc_init`; no later call moves it.
use mini_os.Prelude.{
  ◌||◌, inl, inr, update, ◌%◌, ℕ, zero, suc, ◌+◌, ◌-◌, ◌^◌, ◌≡◌, refl, ◌∙◌, Option, some, none,
  arith, leb, ltb, ◌==◌, Bool-cases, not, bit_xor, if◌then◌else◌, List, [], ◌∷◌,
}
use mini_os.Prelude.Int.{ℤ, pos, negsuc}
use mini_os.Mm.PageAlloc.{
  PageAlloc, free_list_add, free_list_remove, free_list_pop, split_block, merge_up, buddy_free,
  take_block, alloc_from, alloc_pages, get_page, put_page, free_pages, addr_to_pfn, addr_in_pool,
  is_some, shared, order_is, pop_block, is_empty, order_valid, pfn_in_pool,
}

pub record SamePool (a b : PageAlloc) : Type 0 where
  pub start : b.mem_start ≡ a.mem_start
  pub size : b.mem_size ≡ a.mem_size
  pub order : b.max_order ≡ a.max_order
  pub pages : b.pool_pages ≡ a.pool_pages

pub SamePool-refl : (a : PageAlloc) → SamePool a a
SamePool-refl a = record { start = refl; size = refl; order = refl; pages = refl }

pub SamePool-trans : {a b c : PageAlloc} → SamePool a b → SamePool b c → SamePool a c
SamePool-trans s t = record {
  start = t.start ∙ s.start;
  size = t.size ∙ s.size;
  order = t.order ∙ s.order;
  pages = t.pages ∙ s.pages;
}

add-SamePool : (a : PageAlloc) (p o : ℕ) → SamePool a (free_list_add a p o)
unfolding free_list_add
add-SamePool a p o = record { start = refl; size = refl; order = refl; pages = refl }

remove-SamePool : (a : PageAlloc) (p o : ℕ) → SamePool a (free_list_remove a p o)
unfolding free_list_remove
remove-SamePool a p o = ground arith

pop-SamePool : (a : PageAlloc) (o : ℕ) → SamePool a (free_list_pop a o).1
unfolding free_list_pop
pop-SamePool a o = go (a.free_area o)
  where
    go : (xs : List ℕ) → SamePool a (pop_block a o xs).1
    go [] = SamePool-refl a
    go (x ∷ xs) = record { start = refl; size = refl; order = refl; pages = refl }

split-SamePool : (o : ℕ) (a : PageAlloc) (p k : ℕ) → SamePool a (split_block a p o k)
unfolding split_block
split-SamePool zero a p k = SamePool-refl a
split-SamePool (suc o) a p k = elim (Bool-cases (ltb k (suc o))) [
  | inl e ↦ rw e (
      SamePool-trans (add-SamePool a (bit_xor p (2 ^ o)) o)
        (split-SamePool o (free_list_add a (bit_xor p (2 ^ o)) o) p k))
  | inr e ↦ rw e (SamePool-refl a)
]

merge-SamePool : (rounds : ℕ) (a : PageAlloc) (p o : ℕ) → SamePool a (merge_up rounds a p o)
unfolding merge_up
merge-SamePool zero a p o = add-SamePool a p o
merge-SamePool (suc rounds) a p o =
    let buddy = bit_xor p (2 ^ o) in
    elim (Bool-cases (leb a.pool_pages buddy)) [
      | inl e ↦ rw e (add-SamePool a p o)
      | inr e ↦ rw e (elim (Bool-cases (order_is (a.block_order buddy) o)) [
        | inr f ↦ rw f (add-SamePool a p o)
        | inl f ↦ rw f (
            SamePool-trans (remove-SamePool a buddy o) (
              merge-SamePool rounds (free_list_remove a buddy o) (if ltb buddy p then buddy else p)
                (suc o)))
      ])
    ]

buddy_free-SamePool : (a : PageAlloc) (p o : ℕ) → SamePool a (buddy_free a p o)
unfolding buddy_free
buddy_free-SamePool a p o = merge-SamePool (a.max_order - o) a p o

take-SamePool : (a : PageAlloc) (o k : ℕ) → SamePool a (take_block a o k).1
unfolding take_block
take-SamePool a o k =
    let popped = (free_list_pop a o).1 in
    let p = (free_list_pop a o).0 in
    elim (Bool-cases (leb a.pool_pages p)) [
      | inl e ↦ rw e (pop-SamePool a o)
      | inr e ↦ rw e (
          written (split_block popped p o k) p
            (SamePool-trans (pop-SamePool a o) (split-SamePool o popped p k)))
    ]
  where
    written :
        (s : PageAlloc) (p : ℕ)
        → SamePool a s
        → SamePool a (record s {
          block_order = update s.block_order p none;
          refcount = update s.refcount p 1;
        })
    written s p same = record {
      start = same.start;
      size = same.size;
      order = same.order;
      pages = same.pages;
    }

from-SamePool : (rounds : ℕ) (a : PageAlloc) (o k : ℕ) → SamePool a (alloc_from rounds a o k).1
unfolding alloc_from
from-SamePool zero a o k = SamePool-refl a
from-SamePool (suc rounds) a o k = elim (Bool-cases (is_empty (a.free_area o))) [
  | inl e ↦ rw e (from-SamePool rounds a (suc o) k)
  | inr e ↦ rw e (take-SamePool a o k)
]

pub alloc_pages-SamePool : (a : PageAlloc) (order : ℤ) → SamePool a (alloc_pages a order).1
unfolding alloc_pages
alloc_pages-SamePool a (negsuc n) = SamePool-refl a
alloc_pages-SamePool a (pos k) = elim (Bool-cases (order_valid a (pos k))) [
  | inl e ↦ rw e (from-SamePool (a.max_order + 1 - k) a k k)
  | inr e ↦ rw e (SamePool-refl a)
]

-- A changed count, and a page given back behind it.
counts-SamePool :
    (a : PageAlloc) (p n : ℕ) → SamePool a (record a { refcount = update a.refcount p n })
counts-SamePool a p n = record { start = refl; size = refl; order = refl; pages = refl }

freed-SamePool :
    (a : PageAlloc) (p o n : ℕ)
    → SamePool a (buddy_free (record a { refcount = update a.refcount p n }) p o)
freed-SamePool a p o n =
    SamePool-trans (counts-SamePool a p n)
      (buddy_free-SamePool (record a { refcount = update a.refcount p n }) p o)

pub put_page-SamePool : (a : PageAlloc) (p : Option ℕ) → SamePool a (put_page a p)
unfolding put_page pfn_in_pool
put_page-SamePool a none = SamePool-refl a
put_page-SamePool a (some p) =
    let count = (a.refcount p + 2 ^ 32 - 1) % 2 ^ 32 in
    elim (Bool-cases (count == 0)) [
      | inr e ↦ rw e (counts-SamePool a p count)
      | inl e ↦
          rw e
            (elim (Bool-cases (pfn_in_pool (record a { refcount = update a.refcount p count }) p)) [
              | inr f ↦ rw f (counts-SamePool a p count)
              | inl f ↦ rw f (freed-SamePool a p 0 count)
            ])
    ]

pub get_page-SamePool : (a : PageAlloc) (p : Option ℕ) → SamePool a (get_page a p)
unfolding get_page
get_page-SamePool a none = SamePool-refl a
get_page-SamePool a (some p) = counts-SamePool a p ((a.refcount p + 1) % 2 ^ 32)

pub free_pages-SamePool :
    (a : PageAlloc) (addr : ℕ) (order : ℤ) → SamePool a (free_pages a addr order)
unfolding free_pages
free_pages-SamePool a addr (negsuc n) = SamePool-refl a
free_pages-SamePool a addr (pos k) =
    let p = addr_to_pfn a addr in
    elim (Bool-cases (addr == 0 || not (order_valid a (pos k)))) [
      | inl e ↦ rw e (SamePool-refl a)
      | inr e ↦ rw e (elim (Bool-cases (not (pfn_in_pool a p) || not (addr_in_pool a addr k))) [
        | inl f ↦ rw f (SamePool-refl a)
        | inr f ↦ rw f (elim (Bool-cases (is_some (a.block_order p))) [
          | inl g ↦ rw g (SamePool-refl a)
          | inr g ↦ rw g (elim (Bool-cases (shared (a.refcount p))) [
            | inl h ↦ rw h (SamePool-refl a)
            | inr h ↦ rw h (freed-SamePool a p k 0)
          ])
        ])
      ])
    ]
