-- ===== src/Mm/Mmap/Map.antt =====
-- `do_mmap` and `do_munmap` of mm/mmap.c, on the map as a function from addresses to flags.
use mini_os.Prelude.{
  ℕ, ◌+◌, ◌-◌, ◌%◌, ◌≤◌, ◌<◌, ◌≡◌, ◌≢◌, ◌⊎◌, Bool, true, false, not, ◌&&◌, ◌||◌, Option, none, some,
  List, [], ◌∷◌, refl, arith, leb, ltb, ◌==◌, if◌then◌else◌, Bool-cases, inl, inr, bit_and,
}
use mini_os.Kernel.Task.{Ret, ok, err, Errno, enomem, einval}
use mini_os.Mm.Mmap.{
  VmAreaStruct, MmStruct, word, page_size, page_up, user_stack_bottom, stack_limit, vma_erase_range,
  insert_vma, find_unmapped_area, map_at, map_fixed_at, do_mmap, do_munmap, map_anonymous,
  map_fixed, linux_prot_to_map,
}
use mini_os.Mm.Mmap.Areas.{inside, IsSorted, flags_at}
use mini_os.Mm.Mmap.Erase.{Erased, vma_erase_range-Erased}
use mini_os.Mm.Mmap.Search.{page_up_bounds}
use mini_os.Mm.Mmap.Insert.{Placed, placed, low_start, overlaps, insert_vma-Placed}

abbrev pub in_range : (start end a : ℕ) → Bool
in_range start end a = leb start a && ltb a end

-- An error and no change, or a new mapping of addresses that were all free.
pub data IsMapping (m : MmStruct) (va end flags : ℕ) : Ret × MmStruct → Type 0 where
  refused : (e : Errno) → IsMapping m va end flags (err e, m)
  mapped :
      (m' : MmStruct)
      → va < end
      → IsSorted 0 m'.mmap
      → ((a : ℕ)
          → flags_at m'.mmap a ≡ (if in_range va end a then some flags else flags_at m.mmap a))
      → ((a : ℕ) → in_range va end a ≡ true → flags_at m.mmap a ≡ none)
      → IsMapping m va end flags (ok va, m')

-- What `map_at` makes of the answer of `insert_vma`.
map-Placed :
    (m : MmStruct) (va end flags : ℕ) {o : Option (List VmAreaStruct)}
    → va < end
    → Placed 0 (record { vm_start = va; vm_end = end; vm_flags = flags }) m.mmap o
    → IsMapping m va end flags (elim o as (λ _. Ret × MmStruct) [
      | none ↦ (err einval, m)
      | some vs ↦ (
        ok va,
        record m {
          mmap = vs;
          room = m.room - 1;
          mmap_base = if ltb m.mmap_base end then end else m.mmap_base;
        },
      )
    ])
map-Placed m va end flags h (placed ws s view free) = mapped _ h s view free
map-Placed m va end flags h (low_start l) = refused einval
map-Placed m va end flags h (overlaps a i o) = refused einval

insert_vma-empty :
    (new : VmAreaStruct) (vs : List VmAreaStruct)
    → leb new.vm_end new.vm_start ≡ true
    → insert_vma new vs ≡ none
unfolding insert_vma
insert_vma-empty new vs h = rw h

map_at-IsMapping :
    (m : MmStruct) (va len flags : ℕ)
    → IsSorted 0 m.mmap
    → IsMapping m va ((va + len) % word) flags (map_at m va len flags)
unfolding map_at
map_at-IsMapping m va len flags s =
    let end = (va + len) % word in
    let new : VmAreaStruct = record { vm_start = va; vm_end = end; vm_flags = flags } in
    elim (Bool-cases (m.room == 0)) [
      | inl e ↦ rw e (refused enomem)
      | inr e ↦ elim (Bool-cases (leb end va)) [
        | inl none_left ↦ rw (e, insert_vma-empty new m.mmap none_left) (refused einval)
        | inr some_left ↦
            let proper : va < end = ground arith in
            rw e (map-Placed m va end flags proper (insert_vma-Placed new m.mmap proper s))
      ]
    ]

-- Where the areas are sorted and MAP_FIXED is not asked for, do_mmap fails and changes nothing, or
-- it maps a nonempty range of which no address was mapped, the areas stay sorted, and every other
-- address keeps its flags.
pub do_mmap-IsMapping :
    (m : MmStruct) (addr len prot flags : ℕ)
    → IsSorted 0 m.mmap
    → bit_and flags map_fixed ≡ 0
    → let va = find_unmapped_area m (page_up len) in
      IsMapping m va
        ((va + page_up len) % word)
        (linux_prot_to_map prot)
        (do_mmap m addr len prot flags)
unfolding do_mmap
do_mmap-IsMapping m addr len prot flags s f =
    let va = find_unmapped_area m (page_up len) in
    let anywhere : (addr == 0 || bit_and flags map_fixed == 0) ≡ true = ground arith in
    elim (Bool-cases (len == 0 || bit_and flags map_anonymous == 0)) [
      | inl bad ↦ rw bad (refused einval)
      | inr good ↦ elim (Bool-cases (va == 0)) [
        | inl full ↦ rw (good, anywhere, full) (refused enomem)
        | inr gap ↦
            rw (good, anywhere, gap)
              (map_at-IsMapping m va (page_up len) (linux_prot_to_map prot) s)
      ]
    ]

-- What a mapping at a fixed address may come to: the areas stay in order, and where it succeeds the
-- range has the new flags whatever was there, and the rest is as before.
abbrev pub IsRemapping : MmStruct → (va end flags : ℕ) → Ret × MmStruct → Type 0
IsRemapping m va end flags (ret, m') =
    IsSorted 0 m'.mmap
    × (((e : Errno) × (ret ≡ err e))
        ⊎ ((ret ≡ ok va)
            × ((a : ℕ)
                → flags_at m'.mmap a
                  ≡ (if in_range va end a then some flags else flags_at m.mmap a))))

remapped :
    (m : MmStruct) {cleared : MmStruct} {va end flags : ℕ} {out : Ret × MmStruct}
    → Erased 0 va end m.mmap cleared.mmap
    → IsMapping cleared va end flags out
    → IsRemapping m va end flags out
remapped m r (refused e) = (r.sorted, inl (e, refl))
remapped m r (mapped m' h s view free) = (s, inr (refl, λ a. ground (arith, view a, r.view a)))

-- Where the areas are sorted and the range does not wrap, a mapping at a fixed address leaves them
-- sorted, and it fails with an error, or it succeeds and exactly the addresses of the range have
-- the new flags, whatever was mapped there before.
pub map_fixed_at-IsRemapping :
    (m : MmStruct) (va len flags : ℕ)
    → IsSorted 0 m.mmap
    → va ≤ (va + len) % word
    → IsRemapping m va ((va + len) % word) flags (map_fixed_at m va len flags)
unfolding map_fixed_at
map_fixed_at-IsRemapping m va len flags s w =
    let end = (va + len) % word in
    elim (Bool-cases (va == 0 || ltb (stack_limit m user_stack_bottom) end)) [
      | inl bad ↦ rw bad (s, inl (einval, refl))
      | inr good ↦ rw good (
          after (vma_erase_range m.room va end m.mmap)
            (vma_erase_range-Erased m.room va end 0 m.mmap w s))
    ]
  where
    after :
        (out : Ret × List VmAreaStruct × ℕ)
        → IsSorted 0 out.1
          × ((out.0 ≡ err enomem) ⊎ ((out.0 ≡ ok 0) × Erased 0 va ((va + len) % word) m.mmap out.1))
        → IsRemapping m va ((va + len) % word) flags (elim out.0 as (λ _. Ret × MmStruct) [
          | ok _ ↦ map_at (record m { mmap = out.1; room = out.2 }) va len flags
          | err e ↦ (err e, record m { mmap = out.1; room = out.2 })
        ])
    after (ok n, ws, left) (t, inl e) = absurd (ground arith)
    after (err x, ws, left) (t, e) = (t, inl (x, refl))
    after (ok n, ws, left) (t, inr (e, r)) =
        remapped m r (map_at-IsMapping (record m { mmap = ws; room = left }) va len flags t)

-- What `do_munmap` may come to: the areas stay in order, and where it succeeds just the pages of the
-- range are gone.
abbrev pub IsUnmapping : MmStruct → (addr len : ℕ) → Ret × MmStruct → Type 0
IsUnmapping m addr len (ret, m') =
    IsSorted 0 m'.mmap
    × (((e : Errno) × (ret ≡ err e))
        ⊎ ((ret ≡ ok 0)
            × ((a : ℕ)
                → flags_at m'.mmap a ≡ (
                    if not (len == 0) && in_range addr (page_up (addr + len)) a
                    then none
                    else flags_at m.mmap a))))

-- Where the areas are sorted and the end of the range, rounded up to a page, does not wrap,
-- do_munmap leaves the areas sorted, and it fails with an error, or it succeeds and exactly the
-- addresses of the pages of the range are unmapped, while every other address keeps its flags.
pub do_munmap-Erased :
    (m : MmStruct) (addr len : ℕ)
    → IsSorted 0 m.mmap
    → addr + len + page_size ≤ word
    → IsUnmapping m addr len (do_munmap m addr len)
unfolding do_munmap
do_munmap-Erased m addr len s w = elim (Bool-cases (len == 0)) [
  | inl e ↦ rw e (s, inr (refl, λ a. refl))
  | inr e ↦ elim (Bool-cases (addr % page_size == 0)) [
    | inr f ↦ rw (e, f) (s, inl (einval, refl))
    | inl f ↦
        let up = page_up_bounds (addr + len) w in
        let (t, ends) =
          vma_erase_range-Erased m.room addr (page_up (addr + len)) 0 m.mmap (omega (arith, up))
            s in
        rw (e, f) (t, elim ends [ inl x ↦ inl (enomem, x) | inr (x, r) ↦ inr (x, r.view) ])
  ]
]

-- If the end of the range wraps to an address below its start and above the start of the only area,
-- that area reaches above the start of the range, and an area can be allocated, do_munmap succeeds
-- and leaves two areas: the old one up to the start of the range, and the old one from the wrapped
-- end on. Each address from the wrapped end up to the start of the range lies in both.
pub do_munmap-wraps :
    (m : MmStruct) (v : VmAreaStruct) (addr len : ℕ)
    → m.mmap ≡ v ∷ []
    → 0 < m.room
    → len ≢ 0
    → addr % page_size ≡ 0
    → v.vm_start < page_up (addr + len)
    → page_up (addr + len) < addr
    → addr < v.vm_end
    → ((do_munmap m addr len).0 ≡ ok 0)
      × ((do_munmap m addr len).1.mmap
          ≡ (record v { vm_end = addr } ∷ record v { vm_start = page_up (addr + len) } ∷ []))
      × ((a : ℕ)
          → page_up (addr + len) ≤ a
          → a < addr
          → (inside (record v { vm_end = addr }) a ≡ true)
            × (inside (record v { vm_start = page_up (addr + len) }) a ≡ true))
unfolding do_munmap vma_erase_range
do_munmap-wraps m v addr len e r n p b w l =
    rw (e, zero_len, aligned, outside, covered, front, back, enough)
      (refl, refl, λ a above below. (ground arith, ground arith))
  where
    enough : ltb (m.room + 1) 2 ≡ false
    enough = ground arith

    zero_len : (len == 0) ≡ false
    zero_len = ground arith

    aligned : (addr % page_size == 0) ≡ true
    aligned = ground arith

    outside : (leb v.vm_end addr || leb (page_up (addr + len)) v.vm_start) ≡ false
    outside = ground arith

    covered : (leb addr v.vm_start && leb v.vm_end (page_up (addr + len))) ≡ false
    covered = ground arith

    front : leb addr v.vm_start ≡ false
    front = ground arith

    back : leb v.vm_end (page_up (addr + len)) ≡ false
    back = ground arith
