-- ===== src/Mm/Mmap/Protect.antt =====
-- `mprotect` of mm/mmap.c: the cover of the range, the splits at its ends and the new flags.
use mini_os.Prelude.{
  ℕ, zero, suc, ◌+◌, ◌-◌, Bool, true, false, not, ◌||◌, none, some, List, [], ◌∷◌, ltb, leb, ◌==◌,
  if◌then◌else◌, length, bit_and, bit_or, complement,
}
use mini_os.Kernel.Task.{Ret, ok, err, enomem, einval}
use mini_os.Mm.Mmap.{VmAreaStruct, MmStruct, word, page_size, page_up, find_vma, linux_prot_to_map}

-- One area for each area that ends above `va` is enough fuel, see `mprotect_covered-IsCovered`.
unfoldable pub covered_from : (fuel : ℕ) → List VmAreaStruct → (va end : ℕ) → Bool
covered_from zero vs va end = false
covered_from (suc fuel) vs va end = if leb end va then true else elim (find_vma vs va) [
  | none ↦ false
  | some v ↦ if ltb va v.vm_start then false else covered_from fuel vs v.vm_end end
]

unfoldable pub mprotect_covered : List VmAreaStruct → (start end : ℕ) → Bool
mprotect_covered vs start end = covered_from (suc (length vs)) vs start end

-- `vma_split(find_vma(mm, key), addr)`; where it fails nothing is changed.
unfoldable pub split_found : (room key addr : ℕ) → List VmAreaStruct → Ret × List VmAreaStruct × ℕ
split_found room key addr [] = (ok 0, [], room)
split_found room key addr (v ∷ vs) =
    let (ret, rest, left) = split_found room key addr vs in
    if ltb key v.vm_end
    then (if leb addr v.vm_start || leb v.vm_end addr
        then (ok 0, v ∷ vs, room)
        else if room == 0
        then (err enomem, v ∷ vs, room)
        else (ok 0, record v { vm_end = addr } ∷ record v { vm_start = addr } ∷ vs, room - 1))
    else (ret, v ∷ rest, left)

-- `(flags & ~(VM_READ | VM_WRITE | VM_EXEC)) | map_prot`
unfoldable pub with_prot : (map_prot flags : ℕ) → ℕ
with_prot map_prot flags = bit_or (bit_and flags (complement 64 7)) map_prot

-- The last loop of `mm_mprotect`, from the area it starts at.
abbrev pub change_to : (map_prot end : ℕ) → List VmAreaStruct → List VmAreaStruct
change_to map_prot end [] = []
change_to map_prot end (v ∷ vs) =
    if ltb v.vm_start end
    then record v { vm_flags = with_prot map_prot v.vm_flags } ∷ change_to map_prot end vs
    else v ∷ vs

-- The same, with its start `find_vma(mm, start)`.
abbrev pub change_from : (map_prot start end : ℕ) → List VmAreaStruct → List VmAreaStruct
change_from map_prot start end [] = []
change_from map_prot start end (v ∷ vs) =
    if ltb start v.vm_end
    then change_to map_prot end (v ∷ vs)
    else v ∷ change_from map_prot start end vs

-- `mm_mprotect` once both ends are split.
unfoldable pub set_prot :
    MmStruct → (start end prot : ℕ) → Ret × List VmAreaStruct × ℕ → Ret × MmStruct
set_prot m start end prot (ok _, vs, room) =
    (ok 0, record m { mmap = change_from (linux_prot_to_map prot) start end vs; room = room })
set_prot m start end prot (err e, vs, room) = (err e, record m { mmap = vs; room = room })

-- The second split; `end` is above `start` here, so it is not 0.
unfoldable pub split_end :
    MmStruct → (start end prot : ℕ) → Ret × List VmAreaStruct × ℕ → Ret × MmStruct
split_end m start end prot (ok _, vs, room) =
    set_prot m start end prot (split_found room (end - 1) end vs)
split_end m start end prot (err e, vs, room) = (err e, record m { mmap = vs; room = room })

unfoldable pub mm_mprotect : MmStruct → (start end prot : ℕ) → Ret × MmStruct
mm_mprotect m start end prot =
    if leb end start
    then (err einval, m)
    else if not (mprotect_covered m.mmap start end)
    then (err enomem, m)
    else split_end m start end prot (split_found m.room start start m.mmap)

unfoldable pub ksys_mprotect : MmStruct → (addr len prot : ℕ) → Ret × MmStruct
ksys_mprotect m addr len prot =
    let nlen = page_up len in
    if not (bit_and addr (page_size - 1) == 0)
    then (err einval, m)
    else if not (bit_and prot (complement 64 7) == 0)
    then (err einval, m)
    else if len == 0
    then (ok 0, m)
    else if ltb (word - page_size) len
    then (err enomem, m)
    else if ltb (word - 1 - nlen) addr
    then (err enomem, m)
    else mm_mprotect m addr (addr + nlen) prot
