-- ===== src/Fs/Dcache.antt =====
-- fs/dcache.c: the tree of directory entries. A `struct dentry *` is a number, and the chain through
-- `child` and `next` is the list of the children, first one first. `heap` holds the addresses that
-- `kmalloc` will give, and it fails where that is empty. `lookup` stands for `ramfs_lookup_child`.
pub mod Walk
mod Tests
use mini_os.Prelude.{
  ℕ, zero, suc, ◌+◌, ◌-◌, Bool, true, false, ◌&&◌, ◌||◌, not, Option, none, some, List, [], ◌∷◌,
  ◌++◌, ltb, leb, ◌==◌, if◌then◌else◌, length, take, update, without,
}
use mini_os.Kernel.Task.{Errno, einval, enametoolong, erange}
use mini_os.Fs.Namei.{
  Bytes, Result, ok, err, path_max, dname_inline_len, slash, skip_slashes, component, behind,
  is_dot, is_dot_dot, starts_with_slash, str_copy,
}

pub record Dentry : Type 0 where
  pub name : Bytes
  pub inode : Option ℕ
  pub parent : Option ℕ
  pub child : List ℕ

pub record Dcache : Type 0 where
  pub dentry : ℕ → Dentry
  pub heap : List ℕ

-- `&root_dentry`
abbrev pub root_dentry : ℕ
root_dentry = 0

abbrev pub same_name : Bytes → Bytes → Bool
same_name [] [] = true
same_name (c ∷ a) (d ∷ b) = c == d && same_name a b
same_name _ _ = false

-- The loop of `d_find_child`.
unfoldable pub find_named : Dcache → List ℕ → Bytes → Option ℕ
find_named c [] name = none
find_named c (d ∷ ds) name =
    if same_name (c.dentry d).name name then some d else find_named c ds name

unfoldable pub d_find_child : Dcache → ℕ → Bytes → Option ℕ
unfolding find_named
d_find_child c parent name = find_named c (c.dentry parent).child name

abbrev pub is_empty_name : Bytes → Bool
is_empty_name [] = true
is_empty_name (_ ∷ _) = false

-- The new entry is filled in; it is linked by `d_add`.
unfoldable pub d_alloc_at : Dcache → (parent : ℕ) → Bytes → List ℕ → Option ℕ × Dcache
d_alloc_at c parent name [] = (none, c)
d_alloc_at c parent name (d ∷ rest) = (
  some d,
  record c {
    dentry = update c.dentry d (record {
      name = str_copy name dname_inline_len;
      inode = none;
      parent = some parent;
      child = [];
    });
    heap = rest;
  },
)

unfoldable pub d_alloc : Dcache → (parent : ℕ) → Bytes → Option ℕ × Dcache
unfolding d_alloc_at
d_alloc c parent name = if is_empty_name name then (none, c) else d_alloc_at c parent name c.heap

abbrev pub set_children : Dcache → ℕ → List ℕ → Dcache
set_children c p ds = record c { dentry = update c.dentry p (record (c.dentry p) { child = ds }) }

unfoldable pub d_add : Dcache → ℕ → Dcache
d_add c d = elim (c.dentry d).parent [
  | none ↦ c
  | some p ↦ set_children c p (d ∷ (c.dentry p).child)
]

-- Where the entry is on the chain of its parent it is taken off.
unfoldable pub d_unlink : Dcache → ℕ → Dcache
d_unlink c d = elim (c.dentry d).parent [
  | none ↦ c
  | some p ↦ set_children c p (without d (c.dentry p).child)
]

unfoldable pub d_move : Dcache → (dentry new_parent : ℕ) → Bytes → Dcache
unfolding d_add d_unlink
d_move c d new_parent name =
    let off = d_unlink c d in
    let moved : Dcache = record off {
      dentry = update off.dentry d (record (off.dentry d) {
        name = str_copy name dname_inline_len;
        parent = some new_parent;
      });
    } in
    if d == root_dentry || is_empty_name name then c else d_add moved d

-- The end of the loop of `d_lookup_path`: the child, which is attached if the file system has it.
unfoldable pub step_to_child :
    (lookup : Option ℕ → Bytes → Option ℕ) → Dcache → (d : ℕ) → Bytes → Option ℕ × Dcache
unfolding d_find_child d_alloc d_add
step_to_child lookup c d name = elim (d_find_child c d name) [
  | some child ↦ (some child, c)
  | none ↦ elim (lookup (c.dentry d).inode name) [
    | none ↦ (none, c)
    | some inode ↦
        let (made, c') = d_alloc c d name in
        elim made [
          | none ↦ (none, c')
          | some child ↦
              let filled : Dcache = record c' {
                dentry = update c'.dentry child (record (c'.dentry child) { inode = some inode });
              } in
              (some child, d_add filled child)
        ]
  ]
]

-- The parent, or the entry itself at the root.
abbrev pub up : Dcache → ℕ → ℕ
up c d = elim (c.dentry d).parent [ none ↦ d | some p ↦ p ]

-- The loop of `d_lookup_path`; a round takes a byte at least.
unfoldable pub walk_from :
    (lookup : Option ℕ → Bytes → Option ℕ) (fuel : ℕ) → Dcache → (d : ℕ) → Bytes → Option ℕ × Dcache
unfolding step_to_child
walk_from lookup zero c d p = (none, c)
walk_from lookup (suc fuel) c d p =
    let q = skip_slashes p in
    let name = component q in
    let stay = walk_from lookup fuel c d (behind q) in
    let back = walk_from lookup fuel c (up c d) (behind q) in
    let (child, c') = step_to_child lookup c d name in
    let forth : Option ℕ × Dcache = elim child [
      | none ↦ (none, c')
      | some e ↦ walk_from lookup fuel c' e (behind q)
    ] in
    elim q [
      | [] ↦ (some d, c)
      | _ ∷ _ ↦
          if leb dname_inline_len (length name)
          then (none, c)
          else if is_dot name
          then stay
          else if is_dot_dot name
          then back
          else forth
    ]

unfoldable pub d_lookup_path :
    (lookup : Option ℕ → Bytes → Option ℕ) → Dcache → Bytes → Option ℕ × Dcache
unfolding walk_from
d_lookup_path lookup c path =
    if starts_with_slash path
    then walk_from lookup (length path + 1) c root_dentry path
    else (none, c)

-- The loop of `dentry_path`; `tmp` is what stands from `pos` to the NUL at 255. The fuel is more
-- than the depth of the entry, see `path_up-IsAt`.
unfoldable pub path_up : (fuel : ℕ) → Dcache → (d : ℕ) (tmp : Bytes) → Result Bytes
path_up zero c d tmp = err einval
path_up (suc fuel) c d tmp =
    let name = (c.dentry d).name in
    elim (c.dentry d).parent [
      | none ↦ ok tmp
      | some p ↦
          if ltb (path_max - 1 - length tmp) (length name + 1)
          then err enametoolong
          else path_up fuel c p (slash ∷ name ++ tmp)
    ]

-- The string that `dentry_path` leaves in a buffer of `size` bytes.
unfoldable pub dentry_path : (fuel : ℕ) → Dcache → (d size : ℕ) → Result Bytes
unfolding path_up
dentry_path fuel c d size = if size == 0 then err einval else elim (c.dentry d).parent [
  | none ↦ if ltb size 2 then err erange else ok (slash ∷ [])
  | some p ↦ elim (path_up fuel c d []) [
    | err e ↦ err e
    | ok path ↦ if ltb size (length path + 1) then err erange else ok path
  ]
]
