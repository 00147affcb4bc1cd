-- ===== src/Fs/Namei/Names.antt =====
-- Paths as lists of names: what the bytes of a path stand for, and the path that stands for names.
use mini_os.Prelude.{
  ℕ, ◌+◌, ◌≤◌, ◌≡◌, ◌≢◌, refl, sym, ap, ◌∙◌, true, false, List, [], ◌∷◌, ◌++◌, arith, ◌==◌,
  if◌then◌else◌, Bool-cases, length, has, has-append,
}
use mathlib.Core.List.{reverse, reverse-cons, reverse-append, reverse-reverse, append_assoc, tail}
use mathlib.Core.Logic.{inl, inr}
use mini_os.Fs.Namei.{
  Bytes, slash, skip_slashes, component, behind, is_dot, is_dot_dot, pop_component, push_component,
  ends_in_slash,
}

-- A byte in front of the first name of the text behind it.
abbrev pub onto_first : ℕ → List Bytes → List Bytes
onto_first c [] = (c ∷ []) ∷ []
onto_first c (n ∷ ns) = (c ∷ n) ∷ ns

abbrev pub in_front : ℕ → Bytes → List Bytes → List Bytes
in_front c [] ns = (c ∷ []) ∷ ns
in_front c (d ∷ p) ns = if d == slash then (c ∷ []) ∷ ns else onto_first c ns

-- The names in a path: its parts between slashes that are not empty.
abbrev pub names : Bytes → List Bytes
names [] = []
names (c ∷ p) = if c == slash then names p else in_front c p (names p)

pub skip_here : (c : ℕ) (p : Bytes) → (c == slash) ≡ false → skip_slashes (c ∷ p) ≡ c ∷ p
skip_here c p e = rw e

names_at_slash : (c : ℕ) (p : Bytes) → (c == slash) ≡ true → names (c ∷ p) ≡ names p
names_at_slash c p e = rw e

pub behind_at_slash : (c : ℕ) (p : Bytes) → (c == slash) ≡ true → behind (c ∷ p) ≡ c ∷ p
behind_at_slash c p e = rw e

pub names-skip_slashes : (p : Bytes) → names (skip_slashes p) ≡ names p
names-skip_slashes [] = refl
names-skip_slashes (c ∷ p) = elim (Bool-cases (c == slash)) [
  | inl e ↦ rw e (names-skip_slashes p)
  | inr e ↦ ap names (skip_here c p e)
]

names_other : (c : ℕ) (p : Bytes) → (c == slash) ≡ false → names (c ∷ p) ≡ in_front c p (names p)
names_other c p e = rw e

-- A text whose first byte is or is not a slash.
abbrev Split : ℕ → Bytes → Type 0
Split d p =
    (component (d ∷ p) ≡ [])
    × (behind (d ∷ p) ≡ d ∷ p)
    × ((c : ℕ) (ns : List Bytes) → in_front c (d ∷ p) ns ≡ (c ∷ []) ∷ ns)

abbrev pub Joined : ℕ → Bytes → Type 0
Joined d p =
    (component (d ∷ p) ≡ d ∷ component p)
    × (behind (d ∷ p) ≡ behind p)
    × ((c : ℕ) (ns : List Bytes) → in_front c (d ∷ p) ns ≡ onto_first c ns)

at_slash : (d : ℕ) (p : Bytes) → (d == slash) ≡ true → Split d p
at_slash d p e = rw e (refl, refl, λ c ns. refl)

pub at_other : (d : ℕ) (p : Bytes) → (d == slash) ≡ false → Joined d p
at_other d p e = rw e (refl, refl, λ c ns. refl)

pub names-component :
    (c : ℕ) (p : Bytes)
    → (c == slash) ≡ false
    → names (c ∷ p) ≡ (c ∷ component p) ∷ names (behind p)
names-component c [] e = rw e
names-component c (d ∷ p) e = elim (Bool-cases (d == slash)) [
  | inl f ↦
      let (comp, rest, front) = at_slash d p f in
      names_other c (d ∷ p) e
      ∙ front c (names (d ∷ p))
      ∙ sym (ap (λ n. (c ∷ n) ∷ names (behind (d ∷ p))) comp ∙ ap (λ r. (c ∷ []) ∷ names r) rest)
  | inr f ↦
      let (comp, rest, front) = at_other d p f in
      names_other c (d ∷ p) e
      ∙ front c (names (d ∷ p))
      ∙ ap (onto_first c) (names-component d p f)
      ∙ sym (
          ap (λ n. (c ∷ n) ∷ names (behind (d ∷ p))) comp
          ∙ ap (λ r. (c ∷ d ∷ component p) ∷ names r) rest)
]

-- A name that a directory can hold: not empty, without a slash, and not "." or "..".
pub record IsName (n : Bytes) : Type 0 where
  pub filled : n ≢ []
  pub whole : has slash n ≡ false
  pub not_dot : is_dot n ≡ false
  pub not_dot_dot : is_dot_dot n ≡ false

abbrev pub AllNames : List Bytes → Type 0
AllNames [] = Unit
AllNames (n ∷ ns) = IsName n × AllNames ns

-- The names of a path, the last one first, as the bytes of the path, the last one first.
abbrev pub flat : List Bytes → Bytes
flat [] = []
flat (n ∷ ns) = reverse n ++ slash ∷ flat ns

-- The path that goes through the names, of which the last comes first.
abbrev pub path_of : List Bytes → Bytes
path_of [] = slash ∷ []
path_of (n ∷ ns) = reverse (flat (n ∷ ns))

-- Following a name: "." stays, ".." goes up, and at the root stays too.
abbrev pub enter : List Bytes → Bytes → List Bytes
enter ns n = if is_dot n then ns else if is_dot_dot n then tail ns else n ∷ ns

abbrev pub follow : List Bytes → List Bytes → List Bytes
follow ns [] = ns
follow ns (n ∷ rest) = follow (enter ns n) rest

pub component-whole : (p : Bytes) → has slash (component p) ≡ false
component-whole [] = refl
component-whole (c ∷ p) = elim (Bool-cases (c == slash)) [
  | inl e ↦ rw e
  | inr e ↦ rw e (ground (arith, component-whole p))
]

pub length-component : (p : Bytes) → length (component p) + length (behind p) ≡ length p
length-component [] = refl
length-component (c ∷ p) = elim (Bool-cases (c == slash)) [
  | inl e ↦ rw e (omega arith)
  | inr e ↦ rw e (omega (arith, length-component p))
]

pub length-skip_slashes : (p : Bytes) → length (skip_slashes p) ≤ length p
length-skip_slashes [] = omega arith
length-skip_slashes (c ∷ p) = elim (Bool-cases (c == slash)) [
  | inl e ↦ rw e (omega (arith, length-skip_slashes p))
  | inr e ↦ rw e (omega arith)
]

pub has-reverse : (n : Bytes) → has slash (reverse n) ≡ has slash n
has-reverse [] = refl
has-reverse (c ∷ n) =
    ap (has slash) (reverse-cons c n)
    ∙ has-append slash (reverse n) (c ∷ [])
    ∙ ground (arith, has-reverse n)

-- ".." takes the last name away.
pop-append : (n s : Bytes) → has slash n ≡ false → pop_component (n ++ slash ∷ s) ≡ s
unfolding pop_component
pop-append [] s e = refl
pop-append (c ∷ n) s e = ground (arith, pop-append n s)

pub pop_component-flat : (ns : List Bytes) → AllNames ns → pop_component (flat ns) ≡ flat (tail ns)
unfolding pop_component
pop_component-flat [] all = refl
pop_component-flat (n ∷ ns) (ok, all) = pop-append (reverse n) (flat ns) (has-reverse n ∙ ok.whole)

-- No path that goes through names ends in a slash.
reversed_end : (n s : Bytes) → n ≢ [] → has slash n ≡ false → ends_in_slash (n ++ s) ≡ false
reversed_end [] s f e = absurd (f refl)
reversed_end (c ∷ n) s f e = ground arith

pub reverse-filled : (n : Bytes) → n ≢ [] → reverse n ≢ []
reverse-filled n f e = f (sym (reverse-reverse n) ∙ ap reverse e)

pub push_component-flat :
    (n : Bytes) (ns : List Bytes) → AllNames ns → push_component n (flat ns) ≡ flat (n ∷ ns)
unfolding push_component
push_component-flat n [] all = refl
push_component-flat n (m ∷ ns) (ok, all) = rw (
    reversed_end (reverse m) (slash ∷ flat ns) (reverse-filled m ok.filled)
      (has-reverse m ∙ ok.whole))

-- The names of a path with one more name behind it.
abbrev last_name : Bytes → Bytes
last_name n = slash ∷ n

names-whole : (n : Bytes) → n ≢ [] → has slash n ≡ false → names n ≡ n ∷ []
names-whole [] f e = absurd (f refl)
names-whole (c ∷ []) f e = ground arith
names-whole (c ∷ d ∷ n) f e =
    let c_other : (c == slash) ≡ false = ground arith in
    let d_other : (d == slash) ≡ false = ground arith in
    let (comp, rest, front) = at_other d n d_other in
    names_other c (d ∷ n) c_other
    ∙ front c (names (d ∷ n))
    ∙ ap (onto_first c) (names-whole (d ∷ n) (λ g. cc (g)) (ground arith))

names-slash : (n : Bytes) → names (slash ∷ n) ≡ names n
names-slash n = refl

names-append : (p n : Bytes) → IsName n → names (p ++ slash ∷ n) ≡ names p ++ n ∷ []
names-append [] n name = names-slash n ∙ names-whole n name.filled name.whole
names-append (c ∷ p) n name = elim (Bool-cases (c == slash)) [
  | inl e ↦ rw e (names-append p n name)
  | inr e ↦ go p e (names-append p n name)
]
  where
    go :
        (p : Bytes)
        → (c == slash) ≡ false
        → names (p ++ slash ∷ n) ≡ names p ++ n ∷ []
        → names (c ∷ p ++ slash ∷ n) ≡ names (c ∷ p) ++ n ∷ []
    go [] e ih = rw e (ap (λ ns. (c ∷ []) ∷ ns) ih)
    go (d ∷ p) e ih = elim (Bool-cases (d == slash)) [
      | inl f ↦
          let (comp, rest, front) = at_slash d (p ++ slash ∷ n) f in
          let (comp', rest', front') = at_slash d p f in
          names_other c (d ∷ p ++ slash ∷ n) e
          ∙ front c (names (d ∷ p ++ slash ∷ n))
          ∙ ap (λ ns. (c ∷ []) ∷ ns) ih
          ∙ sym (ap (λ ns. ns ++ n ∷ []) (names_other c (d ∷ p) e ∙ front' c (names (d ∷ p))))
      | inr f ↦
          let (comp, rest, front) = at_other d (p ++ slash ∷ n) f in
          let (comp', rest', front') = at_other d p f in
          names_other c (d ∷ p ++ slash ∷ n) e
          ∙ front c (names (d ∷ p ++ slash ∷ n))
          ∙ ap (onto_first c) ih
          ∙ ap (λ ns. onto_first c (ns ++ n ∷ [])) (names-component d p f)
          ∙ sym (
              ap (λ ns. ns ++ n ∷ [])
                (names_other c (d ∷ p) e
                  ∙ front' c (names (d ∷ p))
                  ∙ ap (onto_first c) (names-component d p f)))
    ]

-- The bytes of the path, first one first, name by name.
pub reverse-flat :
    (n : Bytes) (ns : List Bytes) → reverse (flat (n ∷ ns)) ≡ reverse (flat ns) ++ slash ∷ n
reverse-flat n ns =
    reverse-append (reverse n) (slash ∷ flat ns)
    ∙ ap (λ xs. xs ++ reverse (reverse n)) (reverse-cons slash (flat ns))
    ∙ append_assoc (reverse (flat ns)) (slash ∷ []) (reverse (reverse n))
    ∙ ap (λ xs. reverse (flat ns) ++ slash ∷ xs) (reverse-reverse n)

names-flat : (ns : List Bytes) → AllNames ns → names (reverse (flat ns)) ≡ reverse ns
names-flat [] all = refl
names-flat (n ∷ ns) (name, all) =
    ap names (reverse-flat n ns)
    ∙ names-append (reverse (flat ns)) n name
    ∙ ap (λ ms. ms ++ n ∷ []) (names-flat ns all)
    ∙ sym (reverse-cons n ns)

pub names-path_of : (ns : List Bytes) → AllNames ns → names (path_of ns) ≡ reverse ns
names-path_of [] all = refl
names-path_of (n ∷ ns) all = names-flat (n ∷ ns) all

follow-append : (ns ms : List Bytes) (n : Bytes) → follow ns (ms ++ n ∷ []) ≡ enter (follow ns ms) n
follow-append ns [] n = refl
follow-append ns (m ∷ ms) n = follow-append (enter ns m) ms n

pub follow-reverse : (ns : List Bytes) → AllNames ns → follow [] (reverse ns) ≡ ns
follow-reverse [] all = refl
follow-reverse (n ∷ ns) (name, all) =
    ap (follow []) (reverse-cons n ns)
    ∙ follow-append [] (reverse ns) n
    ∙ rw (name.not_dot, name.not_dot_dot) (ap (λ ms. n ∷ ms) (follow-reverse ns all))
