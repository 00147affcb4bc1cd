-- ===== src/Fs/Namei/Resolve.antt =====
-- `path_resolve` of fs/namei.c against the names of the path.
use mini_os.Prelude.{
  ℕ, zero, suc, ◌+◌, ◌≤◌, ◌<◌, ◌≡◌, ◌≢◌, ◌⊎◌, inl, inr, refl, sym, ap, ◌∙◌, true, false, List, [],
  ◌∷◌, ◌++◌, arith, ◌==◌, if◌then◌else◌, Bool-cases, length, take,
}
use mathlib.Core.Path.{subst}
use mathlib.Core.List.{reverse, reverse-reverse, append_assoc}
use mini_os.Kernel.Task.{enametoolong}
use mini_os.Fs.Namei.{
  Bytes, Result, ok, err, slash, path_max, str_copy, resolve_from, resolved, path_resolve,
  starts_with_slash,
}
use mini_os.Fs.Namei.Names.{
  names, AllNames, flat, path_of, follow, reverse-flat, names-path_of, follow-reverse,
}
use mini_os.Fs.Namei.Loop.{LoopOutcome, Stands, length-reverse, need, resolve_from-LoopOutcome}

-- What is asked of the names that a path starts from, and the path that they make.
abbrev pub from : (path : Bytes) → List Bytes → List Bytes
from path ns = if starts_with_slash path then [] else ns

-- What `path_resolve` answers to a path that is not empty and starts from the names `start`: the
-- path of the names that it leads to, which fits and has no "." or ".." in it, or that it is too long,
-- which base and path then are together.
abbrev pub bytes_of : (path : Bytes) → List Bytes → ℕ
bytes_of path ns =
    if starts_with_slash path then length path else length (path_of ns) + 1 + length path

abbrev pub Answer : (start : List Bytes) (path : Bytes) (bytes : ℕ) → Result Bytes → Type 0
Answer start path bytes out =
    let to = follow start (names path) in
    ((out ≡ ok (path_of to)) × AllNames to × (length (path_of to) < path_max))
    ⊎ ((out ≡ err enametoolong) × (path_max ≤ bytes))

pub take_all : (n : ℕ) (xs : Bytes) → length xs ≤ n → take n xs ≡ xs
take_all zero [] l = refl
take_all zero (x ∷ xs) l = absurd (omega arith)
take_all (suc n) [] l = refl
take_all (suc n) (x ∷ xs) l = ap (λ ys. x ∷ ys) (take_all n xs (omega arith))

pub append-filled : (xs : Bytes) (x : ℕ) (ys : Bytes) → xs ++ x ∷ ys ≢ []
append-filled [] x ys e = cc (e)
append-filled (z ∷ xs) x ys e = cc (e)

-- The stack as it is written out.
resolved_filled : (s : Bytes) → s ≢ [] → length s < path_max → resolved (ok s) ≡ ok (reverse s)
unfolding str_copy
resolved_filled [] f l = absurd (f refl)
resolved_filled (c ∷ s) f l =
    ap ok (take_all 255 (reverse (c ∷ s)) (omega (arith, length-reverse (c ∷ s))))

resolved_lem :
    (s : Bytes) (ms : List Bytes)
    → Stands s ms
    → length s < path_max
    → (resolved (ok s) ≡ ok (path_of ms)) × (length (path_of ms) < path_max)
resolved_lem s [] (inl e) l = (ap (λ t. resolved (ok t)) e, omega arith)
resolved_lem s (m ∷ ms) (inl e) l = (
  resolved_filled s (λ g. append-filled (reverse m) slash (flat ms) (sym e ∙ g)) l
      ∙ ap (λ t. ok (reverse t)) e,
  omega (arith, length-reverse (flat (m ∷ ms)), ap length e),
)
resolved_lem s ms (inr (e, f)) l = rw f (
  resolved_filled s (λ g. append-filled [] slash [] (sym e ∙ g)) l ∙ ap (λ t. ok (reverse t)) e,
  omega arith,
)

loop-Answer :
    (path stack : Bytes) (start : List Bytes) (bytes : ℕ) (out : Result Bytes)
    → length stack + need path ≤ bytes
    → LoopOutcome stack start path out
    → Answer start path bytes (resolved out)
loop-Answer path stack start bytes out short (inl (s, e, stands, all, fits)) =
    let (same, small) = resolved_lem s (follow start (names path)) stands fits in
    inl (ap resolved e ∙ same, all, small)
loop-Answer path stack start bytes out short (inr (e, long)) = inr (ap resolved e, omega arith)

base_stack : (ns : List Bytes) → Stands (reverse (path_of ns)) ns
base_stack [] = inr (refl, refl)
base_stack (n ∷ ns) = inl (reverse-reverse (flat (n ∷ ns)))

starts_flat :
    (ns : List Bytes) (x : Bytes) → starts_with_slash (reverse (flat ns) ++ slash ∷ x) ≡ true
starts_flat [] x = refl
starts_flat (n ∷ ns) x =
    ap (λ p. starts_with_slash (p ++ slash ∷ x)) (reverse-flat n ns)
    ∙ ap starts_with_slash (append_assoc (reverse (flat ns)) (slash ∷ n) (slash ∷ x))
    ∙ starts_flat ns (n ++ slash ∷ x)

pub starts_with_slash-path_of : (ns : List Bytes) → starts_with_slash (path_of ns) ≡ true
starts_with_slash-path_of [] = refl
starts_with_slash-path_of (n ∷ ns) = ap starts_with_slash (reverse-flat n ns) ∙ starts_flat ns n

path_resolve_absolute :
    (base : Bytes) (c : ℕ) (path : Bytes)
    → (c == slash) ≡ true
    → path_resolve base (c ∷ path) ≡ resolved (resolve_from (length path + 2) [] (c ∷ path))
unfolding path_resolve
path_resolve_absolute base c path e = rw (e, path_resolve)

path_resolve_relative :
    (ns : List Bytes) (c : ℕ) (path : Bytes)
    → (c == slash) ≡ false
    → length (path_of ns) < path_max
    → path_resolve (path_of ns) (c ∷ path)
      ≡ resolved (resolve_from (length path + 2) (reverse (path_of ns)) (c ∷ path))
unfolding path_resolve str_copy
path_resolve_relative ns c path e short =
    rw (e, path_resolve)
      (rw (starts_with_slash-path_of ns, take_all 255 (path_of ns) (omega arith)))

from_absolute :
    (c : ℕ) (path : Bytes) (ns : List Bytes) → (c == slash) ≡ true → from (c ∷ path) ns ≡ []
from_absolute c path ns e = rw e

from_relative :
    (c : ℕ) (path : Bytes) (ns : List Bytes) → (c == slash) ≡ false → from (c ∷ path) ns ≡ ns
from_relative c path ns e = rw e

absolute_bytes :
    (c : ℕ) (path : Bytes) (ns : List Bytes)
    → (c == slash) ≡ true
    → length {A = ℕ} [] + need (c ∷ path) ≤ bytes_of (c ∷ path) ns
absolute_bytes c path ns e = rw e (omega arith)

relative_bytes :
    (c : ℕ) (path : Bytes) (ns : List Bytes)
    → (c == slash) ≡ false
    → length (reverse (path_of ns)) + need (c ∷ path) ≤ bytes_of (c ∷ path) ns
relative_bytes c path ns e = rw e (omega (arith, length-reverse (path_of ns)))

path_of-filled : (ns : List Bytes) → path_of ns ≢ []
path_of-filled [] e = cc (e)
path_of-filled (n ∷ ns) e = append-filled (reverse (flat ns)) slash n (sym (reverse-flat n ns) ∙ e)

-- For a path that is not empty and a working directory that goes through proper names and fits in
-- PATH_MAX, path_resolve answers the absolute path that the path's components lead to, one after
-- another from the root or the working directory, with . and .. followed and the root its own
-- parent; that path goes through proper names and fits in PATH_MAX. The other answer is
-- ENAMETOOLONG, only where the path, with the directory it starts from and a slash, has PATH_MAX
-- bytes or more.
pub path_resolve-Answer :
    (ns : List Bytes) (path : Bytes)
    → AllNames ns
    → length (path_of ns) < path_max
    → path ≢ []
    → Answer (from path ns) path (bytes_of path ns) (path_resolve (path_of ns) path)
path_resolve-Answer ns [] all short filled = absurd (filled refl)
path_resolve-Answer ns (c ∷ path) all short filled = elim (Bool-cases (c == slash)) [
  | inl e ↦
      let out = resolve_from (length path + 2) [] (c ∷ path) in
      subst (λ r. Answer (from (c ∷ path) ns) (c ∷ path) (bytes_of (c ∷ path) ns) r)
        (sym (path_resolve_absolute (path_of ns) c path e))
        (subst (λ m. Answer m (c ∷ path) (bytes_of (c ∷ path) ns) (resolved out))
          (sym (from_absolute c path ns e))
          (loop-Answer (c ∷ path) [] [] (bytes_of (c ∷ path) ns) out (absolute_bytes c path ns e) (
            resolve_from-LoopOutcome (length path + 2) [] [] (c ∷ path) (omega arith) (omega arith)
              tt (inl refl))))
  | inr e ↦
      let out = resolve_from (length path + 2) (reverse (path_of ns)) (c ∷ path) in
      subst (λ r. Answer (from (c ∷ path) ns) (c ∷ path) (bytes_of (c ∷ path) ns) r)
        (sym (path_resolve_relative ns c path e short))
        (subst (λ m. Answer m (c ∷ path) (bytes_of (c ∷ path) ns) (resolved out))
          (sym (from_relative c path ns e))
          (loop-Answer (c ∷ path) (reverse (path_of ns)) ns (bytes_of (c ∷ path) ns) out
            (relative_bytes c path ns e)
            (resolve_from-LoopOutcome (length path + 2) (reverse (path_of ns)) ns (c ∷ path)
              (omega arith) (omega (arith, length-reverse (path_of ns))) all (base_stack ns))))
]

-- For two absolute paths through proper names that fit in PATH_MAX, to resolve the second from the
-- first answers the second: an absolute path that is already resolved is left as it is, whatever
-- the working directory.
pub path_resolve-path_of :
    (ms ns : List Bytes)
    → AllNames ms
    → AllNames ns
    → length (path_of ms) < path_max
    → length (path_of ns) < path_max
    → path_resolve (path_of ms) (path_of ns) ≡ ok (path_of ns)
path_resolve-path_of ms ns all_ms all_ns short_ms short_ns =
    let filled : path_of ns ≢ [] = path_of-filled ns in
    let start : from (path_of ns) ms ≡ [] = rw (starts_with_slash-path_of ns) in
    let a = path_resolve-Answer ms (path_of ns) all_ms short_ms filled in
    let goes : follow (from (path_of ns) ms) (names (path_of ns)) ≡ ns =
      ap (λ m. follow m (names (path_of ns))) start
      ∙ ap (follow []) (names-path_of ns all_ns)
      ∙ follow-reverse ns all_ns in
    let room : bytes_of (path_of ns) ms ≡ length (path_of ns) = rw (starts_with_slash-path_of ns) in
    elim a as (λ x. path_resolve (path_of ms) (path_of ns) ≡ ok (path_of ns)) [
      | inl (e, names_ok, fits) ↦ e ∙ ap (λ m. ok (path_of m)) goes
      | inr (e, long) ↦ absurd (omega arith)
    ]
