-- ===== src/Fs/Namei.antt =====
-- fs/namei.c: paths as text. A string is the list of its bytes before the NUL, and a buffer of
-- PATH_MAX bytes holds at most 255 of them. The calls on inodes and directories are not modelled.
pub mod Names
pub mod Loop
pub mod Resolve
pub mod Parent
mod Tests
use mini_os.Prelude.{
  ℕ, zero, suc, ◌+◌, ◌-◌, Bool, true, false, ◌&&◌, not, Option, none, some, List, [], ◌∷◌, ◌++◌,
  ltb, leb, ◌==◌, if◌then◌else◌, length, take, drop,
}
use mathlib.Core.List.{reverse}
use mini_os.Kernel.Task.{Errno, enoent, einval, enametoolong}

abbrev pub Bytes : Type 0
Bytes = List ℕ

abbrev pub path_max : ℕ
path_max = 256

abbrev pub dname_inline_len : ℕ
dname_inline_len = 256

abbrev pub slash : ℕ
slash = 47

abbrev pub dot : ℕ
dot = 46

-- What a function that returns 0 leaves in its buffer, or the error that it returns.
pub data Result {ℓ} (A : Type ℓ) : Type ℓ where
  ok : A → Result A
  err : Errno → Result A

-- `str_copy`, where `max` is at least 1.
unfoldable pub str_copy : Bytes → (max : ℕ) → Bytes
str_copy src max = take (max - 1) src

abbrev pub skip_slashes : Bytes → Bytes
skip_slashes [] = []
skip_slashes (c ∷ p) = if c == slash then skip_slashes p else c ∷ p

-- The bytes up to the next slash, and what stands from there on.
abbrev pub component : Bytes → Bytes
component [] = []
component (c ∷ p) = if c == slash then [] else c ∷ component p

abbrev pub behind : Bytes → Bytes
behind [] = []
behind (c ∷ p) = if c == slash then c ∷ p else behind p

abbrev pub is_dot : Bytes → Bool
is_dot (c ∷ []) = c == dot
is_dot _ = false

abbrev pub is_dot_dot : Bytes → Bool
is_dot_dot (c ∷ d ∷ []) = c == dot && d == dot
is_dot_dot _ = false

-- The array `stack` up to `sp`, its last byte first. The step of "..".
unfoldable pub pop_component : Bytes → Bytes
pop_component [] = []
pop_component (c ∷ stack) = if c == slash then stack else pop_component stack

abbrev pub ends_in_slash : Bytes → Bool
ends_in_slash [] = false
ends_in_slash (c ∷ _) = c == slash

-- The end of the body of the loop of `path_resolve`, without the bound.
unfoldable pub push_component : (comp stack : Bytes) → Bytes
push_component comp stack = reverse comp ++ (if ends_in_slash stack then stack else slash ∷ stack)

-- The loop of `path_resolve`; a round takes a byte at least, see `resolve_from-LoopOutcome`.
unfoldable pub resolve_from : (fuel : ℕ) (stack p : Bytes) → Result Bytes
resolve_from zero stack p = err einval
resolve_from (suc fuel) stack p =
    let q = skip_slashes p in
    let comp = component q in
    let same = resolve_from fuel stack (behind q) in
    let up = resolve_from fuel (pop_component stack) (behind q) in
    let down = resolve_from fuel (push_component comp stack) (behind q) in
    elim q [
      | [] ↦ ok stack
      | _ ∷ _ ↦
          if leb path_max (length comp)
          then err enametoolong
          else if is_dot comp
          then same
          else if is_dot_dot comp
          then up
          else if leb path_max (length stack + 1 + length comp)
          then err enametoolong
          else down
    ]

-- What `path_resolve` writes to `out`.
abbrev pub resolved : Result Bytes → Result Bytes
resolved (err e) = err e
resolved (ok []) = ok (slash ∷ [])
resolved (ok (c ∷ stack)) = ok (str_copy (reverse (c ∷ stack)) path_max)

abbrev pub starts_with_slash : Bytes → Bool
starts_with_slash [] = false
starts_with_slash (c ∷ _) = c == slash

unfoldable pub path_resolve : (base path : Bytes) → Result Bytes
path_resolve base [] = err enoent
path_resolve base (c ∷ path) =
    if c == slash
    then resolved (resolve_from (length path + 2) [] (c ∷ path))
    else if not (starts_with_slash base)
    then err einval
    else resolved (resolve_from (length path + 2) (reverse (str_copy base path_max)) (c ∷ path))

-- The loop that drops slashes at the end of a path; the path is given last byte first.
unfoldable pub strip_slashes : Bytes → Bytes
strip_slashes [] = []
strip_slashes (c ∷ []) = c ∷ []
strip_slashes (c ∷ d ∷ p) = if c == slash then strip_slashes (d ∷ p) else c ∷ d ∷ p

-- The bytes before the last slash, given last byte first, as the path of the parent.
abbrev pub parent_path : Bytes → Bytes
parent_path [] = slash ∷ []
parent_path (c ∷ p) = reverse (c ∷ p)

abbrev pub without_slash : Bytes → Bytes
without_slash [] = []
without_slash (_ ∷ p) = p

-- The path of the parent, and the name in it.
unfoldable pub path_parent_name : Bytes → Result (Bytes × Bytes)
unfolding strip_slashes
path_parent_name path =
    let p = strip_slashes (reverse path) in
    let before = without_slash (behind p) in
    let name = take (dname_inline_len - 1) (reverse (component p)) in
    if not (starts_with_slash path)
    then err einval
    else if leb (length p) 1
    then err enoent
    else if leb path_max (length before)
    then err enametoolong
    else if length name == 0
    then err enoent
    else ok (parent_path before, name)
