-- ===== src/Fs/Namei/Parent.antt =====
-- `path_parent_name` of fs/namei.c on the paths that `path_resolve` makes.
use mini_os.Prelude.{
  ◌+◌, ◌<◌, ◌≡◌, ◌≢◌, refl, ap, ◌∙◌, false, List, [], ◌∷◌, ◌++◌, arith, ◌==◌, leb, length,
  length-append, has,
}
use mathlib.Core.List.{reverse, reverse-reverse}
use mini_os.Fs.Namei.{
  Bytes, ok, slash, path_max, component, behind, strip_slashes, parent_path, path_parent_name,
}
use mini_os.Fs.Namei.Names.{IsName, AllNames, flat, path_of, has-reverse, reverse-filled}
use mini_os.Fs.Namei.Resolve.{starts_with_slash-path_of, take_all, append-filled}
use mini_os.Fs.Namei.Loop.{length-reverse}

-- A name in front of a slash is a component.
component-append : (n s : Bytes) → has slash n ≡ false → component (n ++ slash ∷ s) ≡ n
component-append [] s e = refl
component-append (c ∷ n) s e = ground (arith, component-append n s)

behind-append : (n s : Bytes) → has slash n ≡ false → behind (n ++ slash ∷ s) ≡ slash ∷ s
behind-append [] s e = refl
behind-append (c ∷ n) s e = ground (arith, behind-append n s)

strip_name :
    (n s : Bytes) → n ≢ [] → has slash n ≡ false → strip_slashes (n ++ slash ∷ s) ≡ n ++ slash ∷ s
unfolding strip_slashes
strip_name [] s f e = absurd (f refl)
strip_name (c ∷ []) s f e = ground arith
strip_name (c ∷ d ∷ n) s f e = ground arith

parent_path-flat : (ns : List Bytes) → parent_path (flat ns) ≡ path_of ns
parent_path-flat [] = refl
parent_path-flat (n ∷ ns) = filled (flat (n ∷ ns)) (append-filled (reverse n) slash (flat ns))
  where
    filled : (s : Bytes) → s ≢ [] → parent_path s ≡ reverse s
    filled [] f = absurd (f refl)
    filled (c ∷ s) f = refl

length-filled : (n : Bytes) → n ≢ [] → 0 < length n
length-filled [] f = absurd (f refl)
length-filled (c ∷ n) f = omega arith

-- Of an absolute path through proper names that fits in PATH_MAX and is not the root,
-- path_parent_name answers the path of the names before the last one, and the last name.
pub path_parent_name-path_of :
    (n : Bytes) (ns : List Bytes)
    → IsName n
    → AllNames ns
    → length (path_of (n ∷ ns)) < path_max
    → path_parent_name (path_of (n ∷ ns)) ≡ ok (path_of ns, n)
unfolding path_parent_name
path_parent_name-path_of n ns name all short =
    let whole = has-reverse n ∙ name.whole in
    let stripped : strip_slashes (reverse (path_of (n ∷ ns))) ≡ reverse n ++ slash ∷ flat ns =
      ap strip_slashes (reverse-reverse (flat (n ∷ ns)))
      ∙ strip_name (reverse n) (flat ns) (reverse-filled n name.filled) whole in
    let total : length (path_of (n ∷ ns)) ≡ length n + 1 + length (flat ns) =
      length-reverse (flat (n ∷ ns))
      ∙ omega (arith, length-append (reverse n) (slash ∷ flat ns), length-reverse n) in
    let some_name = length-filled n name.filled in
    let long : leb (length (reverse n ++ slash ∷ flat ns)) 1 ≡ false =
      ground (arith, length-append (reverse n) (slash ∷ flat ns), length-reverse n) in
    let fits : leb path_max (length (flat ns)) ≡ false = ground arith in
    let whole_name = take_all 255 n (omega arith) in
    let not_empty : (length n == 0) ≡ false = ground arith in
    rw (
      stripped,
      starts_with_slash-path_of (n ∷ ns),
      component-append (reverse n) (flat ns) whole,
      behind-append (reverse n) (flat ns) whole,
      reverse-reverse n,
      whole_name,
      long,
      fits,
      not_empty,
      parent_path-flat ns,
    )
