-- ===== src/Mm/PageAlloc.antt =====
-- mm/page_alloc.c: the buddy allocator of physical pages.
-- `free_area[o]` is a chain through the free pages themselves, and is here the list of the page
-- numbers on it, first block first. The arrays `block_order` (-1 is `none`) and `mem_map` are
-- functions of the page number; a pointer that may be NULL is an option.
pub mod Invariant
pub mod Count
pub mod Free
pub mod Split
pub mod Alloc
pub mod Reclaim
pub mod Init
pub mod Pool
mod Tests
use mini_os.Prelude.{
  ℕ, zero, suc, ◌+◌, ◌-◌, ◌*◌, ◌/◌, ◌%◌, ◌^◌, Bool, true, false, not, ◌&&◌, ◌||◌, Option, none,
  some, List, [], ◌∷◌, ltb, leb, ◌==◌, if◌then◌else◌, update, has, without, bit_xor,
}
use mini_os.Prelude.Int.{ℤ, pos, negsuc}

abbrev pub page_size : ℕ
page_size = 4096

abbrev pub word : ℕ
word = 2 ^ 64

-- VIRT_MEM_END: the end of the 128 MiB of RAM, as a kernel virtual address.
abbrev pub virt_mem_end : ℕ
virt_mem_end = 0xffff800088000000

-- PHYS_MEM_SIZE / PAGE_SIZE
abbrev pub max_pages : ℕ
max_pages = 32768

-- The static variables of the file.
pub record PageAlloc : Type 0 where
  pub free_area : ℕ → List ℕ
  pub mem_start : ℕ
  pub mem_size : ℕ
  pub max_order : ℕ
  pub pool_pages : ℕ
  pub block_order : ℕ → Option ℕ
  -- `_refcount` of each `struct page`, as the 32-bit pattern of the `int`
  pub refcount : ℕ → ℕ

unfoldable pub addr_to_pfn : PageAlloc → ℕ → ℕ
addr_to_pfn a addr = (addr + word - a.mem_start) % word / page_size

unfoldable pub pfn_to_addr : PageAlloc → ℕ → ℕ
pfn_to_addr a pfn = (a.mem_start + pfn * page_size) % word

unfoldable pub order_valid : PageAlloc → ℤ → Bool
order_valid a (pos order) = leb order a.max_order
order_valid a (negsuc _) = false

-- `addr & (size - 1)` for a power of two is the remainder.
unfoldable pub addr_in_pool : PageAlloc → ℕ → ℕ → Bool
addr_in_pool a addr order =
    let size = page_size * 2 ^ order % word in
    let end = (a.mem_start + a.mem_size) % word in
    if ltb addr a.mem_start || ltb end ((addr + size) % word) then false else addr % size == 0

unfoldable pub pfn_in_pool : PageAlloc → ℕ → Bool
pfn_in_pool a pfn = ltb pfn a.pool_pages

unfoldable pub free_list_add : PageAlloc → ℕ → ℕ → PageAlloc
free_list_add a pfn order = record a {
  free_area = update a.free_area order (pfn ∷ a.free_area order);
  block_order = update a.block_order pfn (some order);
}

-- The walk ends without a change where the block is not on the list.
unfoldable pub free_list_remove : PageAlloc → ℕ → ℕ → PageAlloc
free_list_remove a pfn order =
    if has pfn (a.free_area order)
    then record a {
      free_area = update a.free_area order (without pfn (a.free_area order));
      block_order = update a.block_order pfn none;
    }
    else a

pop_block : PageAlloc → ℕ → List ℕ → ℕ × PageAlloc
pop_block a order [] = (max_pages, a)
pop_block a order (pfn ∷ rest) = (
  pfn,
  record a {
    free_area = update a.free_area order rest;
    block_order = update a.block_order pfn none;
  },
)

unfoldable pub free_list_pop : PageAlloc → ℕ → ℕ × PageAlloc
unfolding pop_block
free_list_pop a order = pop_block a order (a.free_area order)

-- The recursion is on `order`, which the loop counts down from `from_order`.
unfoldable pub split_block : PageAlloc → ℕ → ℕ → ℕ → PageAlloc
split_block a pfn zero to_order = a
split_block a pfn (suc order) to_order =
    if ltb to_order (suc order)
    then split_block (free_list_add a (bit_xor pfn (2 ^ order)) order) pfn order to_order
    else a

abbrev pub order_is : Option ℕ → ℕ → Bool
order_is none o = false
order_is (some k) o = k == o

-- The loop of `buddy_free` runs while `o < max_order`; `rounds` is `max_order - o`.
unfoldable pub merge_up : ℕ → PageAlloc → ℕ → ℕ → PageAlloc
merge_up zero a pfn o = free_list_add a pfn o
merge_up (suc rounds) a pfn o =
    let buddy = bit_xor pfn (2 ^ o) in
    let merged =
      merge_up rounds (free_list_remove a buddy o) (if ltb buddy pfn then buddy else pfn) (suc o) in
    if leb a.pool_pages buddy
    then free_list_add a pfn o
    else if not (order_is (a.block_order buddy) o)
    then free_list_add a pfn o
    else merged

unfoldable pub buddy_free : PageAlloc → ℕ → ℕ → PageAlloc
unfolding merge_up
buddy_free a pfn order = merge_up (a.max_order - order) a pfn order

-- `63 - __builtin_clzl(n)` for `n` other than 0, below `2 ^ fuel`.
unfoldable pub floor_log2 : ℕ → ℕ → ℕ
floor_log2 zero n = 0
floor_log2 (suc fuel) n = let above = floor_log2 fuel (n / 2) in if ltb n 2 then 0 else suc above

-- `start` is the address of `__alloc_start`; the variables start out as zeros.
unfoldable pub page_alloc_init : ℕ → PageAlloc
unfolding floor_log2 free_list_add
page_alloc_init start =
    let mem_start = (start + page_size - 1) % word / page_size * page_size in
    let empty : PageAlloc = record {
      free_area = λ o. [];
      mem_start = mem_start;
      mem_size = 0;
      max_order = 0;
      pool_pages = 0;
      block_order = λ pfn. none;
      refcount = λ pfn. 0;
    } in
    let npages = (virt_mem_end - mem_start) / page_size in
    let max_order = floor_log2 64 npages in
    if leb virt_mem_end mem_start
    then empty
    else if npages == 0
    then empty
    else free_list_add
        (record empty {
          max_order = max_order;
          pool_pages = 2 ^ max_order;
          mem_size = 2 ^ max_order * page_size;
        })
        0 max_order

-- The body of the loop of `alloc_pages` where `free_area[o]` is not empty.
unfoldable pub take_block : PageAlloc → ℕ → ℕ → Option ℕ × PageAlloc
unfolding free_list_pop split_block pfn_to_addr
take_block a o order =
    let (pfn, popped) = free_list_pop a o in
    let split = split_block popped pfn o order in
    if leb a.pool_pages pfn then (none, popped) else (
      some (pfn_to_addr a pfn),
      record split {
        block_order = update split.block_order pfn none;
        refcount = update split.refcount pfn 1;
      },
    )

is_empty : List ℕ → Bool
is_empty [] = true
is_empty (_ ∷ _) = false

-- `rounds` is `max_order + 1 - o`.
unfoldable pub alloc_from : ℕ → PageAlloc → ℕ → ℕ → Option ℕ × PageAlloc
unfolding is_empty take_block
alloc_from zero a o order = (none, a)
alloc_from (suc rounds) a o order =
    let rest = alloc_from rounds a (suc o) order in
    if is_empty (a.free_area o) then rest else take_block a o order

unfoldable pub alloc_pages : PageAlloc → ℤ → Option ℕ × PageAlloc
unfolding alloc_from order_valid
alloc_pages a (negsuc n) = (none, a)
alloc_pages a (pos order) =
    if not (order_valid a (pos order))
    then (none, a)
    else alloc_from (a.max_order + 1 - order) a order order

-- `atomic_read(&page->_refcount) > 1`, a comparison of an `int`.
abbrev pub shared : ℕ → Bool
shared count = ltb 1 count && ltb count (2 ^ 31)

abbrev pub is_some {ℓ} : {A : Type ℓ} → Option A → Bool
is_some none = false
is_some (some _) = true

unfoldable pub free_pages : PageAlloc → ℕ → ℤ → PageAlloc
free_pages a addr (negsuc n) = a
free_pages a addr (pos order) =
    let pfn = addr_to_pfn a addr in
    if addr == 0 || not (order_valid a (pos order))
    then a
    else if not (pfn_in_pool a pfn) || not (addr_in_pool a addr order)
    then a
    else if is_some (a.block_order pfn)
    then a
    else if shared (a.refcount pfn)
    then a
    else buddy_free (record a { refcount = update a.refcount pfn 0 }) pfn order

-- A `struct page *` is its index in `mem_map`; `none` is NULL.
unfoldable pub virt_to_page : PageAlloc → ℕ → Option ℕ
virt_to_page a addr =
    if addr == 0 || not (addr_in_pool a addr 0)
    then none
    else if not (pfn_in_pool a (addr_to_pfn a addr))
    then none
    else some (addr_to_pfn a addr)

unfoldable pub page_address : PageAlloc → Option ℕ → Option ℕ
page_address a none = none
page_address a (some pfn) = if not (pfn_in_pool a pfn) then none else some (pfn_to_addr a pfn)

unfoldable pub get_page : PageAlloc → Option ℕ → PageAlloc
get_page a none = a
get_page a (some pfn) = record a {
  refcount = update a.refcount pfn ((a.refcount pfn + 1) % 2 ^ 32);
}

unfoldable pub put_page : PageAlloc → Option ℕ → PageAlloc
put_page a none = a
put_page a (some pfn) =
    let count = (a.refcount pfn + 2 ^ 32 - 1) % 2 ^ 32 in
    let dropped : PageAlloc = record a { refcount = update a.refcount pfn count } in
    if not (count == 0)
    then dropped
    else if not (pfn_in_pool a pfn)
    then dropped
    else buddy_free dropped pfn 0

unfoldable pub page_count : PageAlloc → Option ℕ → ℕ
page_count a none = 0
page_count a (some pfn) = a.refcount pfn
