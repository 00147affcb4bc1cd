-- ===== src/Mm/Mmap/Change.antt =====
-- `mm_mprotect` of mm/mmap.c on the map as a function from addresses to flags.
use mini_os.Prelude.{ℕ, ◌≤◌, ◌≡◌, ◌⊎◌, Option, none, some, List, [], ◌∷◌, if◌then◌else◌}
use mini_os.Kernel.Task.{Ret, ok, err, Errno, enomem}
use mini_os.Mm.Mmap.{VmAreaStruct, MmStruct, linux_prot_to_map}
use mini_os.Mm.Mmap.Areas.{IsSorted, flags_at}
use mini_os.Mm.Mmap.Map.{in_range}
use mini_os.Mm.Mmap.Protect.{with_prot}

-- No area holds addresses on both sides.
abbrev pub IsSplit : ℕ → List VmAreaStruct → Type 0
IsSplit at [] = at ≤ at
IsSplit at (v ∷ vs) = ((v.vm_end ≤ at) ⊎ (at ≤ v.vm_start)) × IsSplit at vs

-- A list of areas that means the same.
pub record SameMap (low : ℕ) (vs ws : List VmAreaStruct) : Type 0 where
  pub sorted : IsSorted low ws
  pub view : (a : ℕ) → flags_at ws a ≡ flags_at vs a
  pub splits : (at : ℕ) → IsSplit at vs → IsSplit at ws

-- The areas mean the same after a split, and where it succeeds they are split at `at`.
abbrev pub IsSplitAt : (low at : ℕ) → List VmAreaStruct → Ret × List VmAreaStruct × ℕ → Type 0
IsSplitAt low at vs (ret, ws, left) =
    SameMap low vs ws × ((ret ≡ err enomem) ⊎ ((ret ≡ ok 0) × IsSplit at ws))

abbrev pub changed : (map_prot : ℕ) → Option ℕ → Option ℕ
changed map_prot none = none
changed map_prot (some flags) = some (with_prot map_prot flags)

-- What `mm_mprotect` comes to: the areas stay in order, and either it fails and every address means
-- what it did, or just the range has the new permissions.
abbrev pub IsProtected : MmStruct → (start end prot : ℕ) → Ret × MmStruct → Type 0
IsProtected m start end prot (ret, m') =
    IsSorted 0 m'.mmap
    × ((((e : Errno) × (ret ≡ err e)) × ((a : ℕ) → flags_at m'.mmap a ≡ flags_at m.mmap a))
        ⊎ ((ret ≡ ok 0)
            × ((a : ℕ)
                → flags_at m'.mmap a ≡ (
                    if in_range start end a
                    then changed (linux_prot_to_map prot) (flags_at m.mmap a)
                    else flags_at m.mmap a))))
