-- ===== src/Fs/Dcache/Walk.antt =====
-- `dentry_path` and `d_lookup_path` of fs/dcache.c: from an entry to its path and back.
use mini_os.Prelude.{
  ℕ, zero, suc, ◌+◌, ◌-◌, ◌<◌, ◌≡◌, inl, inr, refl, sym, ap, ◌∙◌, false, Option, none, some, List,
  [], ◌∷◌, ◌++◌, arith, ◌==◌, leb, ltb, if◌then◌else◌, length, length-append,
}
use mathlib.Core.Path.{subst}
use mathlib.Core.List.{reverse, reverse-cons, append_assoc, append-nil}
use mini_os.Fs.Namei.{
  Bytes, ok, slash, path_max, dname_inline_len, skip_slashes, component, behind, is_dot, is_dot_dot,
}
use mini_os.Fs.Namei.Names.{
  names, at_other, names-skip_slashes, names-component, IsName, AllNames, flat, path_of,
  reverse-flat, names-path_of, length-component, length-skip_slashes,
}
use mini_os.Fs.Namei.Resolve.{starts_with_slash-path_of}
use mini_os.Fs.Namei.Loop.{Skipped-cases, length-reverse}
use mini_os.Fs.Dcache.{
  Dcache, root_dentry, d_find_child, step_to_child, walk_from, d_lookup_path, path_up, dentry_path,
  up,
}

-- The entry `d` is linked below the root under the names `ns`, its own name first.
abbrev pub IsAt : Dcache → List Bytes → ℕ → Type 0
IsAt c [] d = (d ≡ root_dentry) × ((c.dentry d).parent ≡ none)
IsAt c (n ∷ ns) d =
    (p : ℕ) × ((c.dentry d).parent ≡ some p)
    × ((c.dentry d).name ≡ n)
    × (d_find_child c p n ≡ some d)
    × IsAt c ns p

-- A walk by names from one entry to another, over entries that are there.
abbrev Leads : Dcache → ℕ → List Bytes → ℕ → Type 0
Leads c d [] e = d ≡ e
Leads c d (n ∷ ns) e = (x : ℕ) × (d_find_child c d n ≡ some x) × Leads c x ns e

Leads-append :
    (c : Dcache) (d p e : ℕ) (ns : List Bytes) (n : Bytes)
    → Leads c d ns p
    → d_find_child c p n ≡ some e
    → Leads c d (ns ++ n ∷ []) e
Leads-append c d p e [] n at found = (e, rw at found, refl)
Leads-append c d p e (m ∷ ns) n (x, f, more) found = (x, f, Leads-append c x p e ns n more found)

Leads-IsAt :
    (c : Dcache) (ns : List Bytes) (d : ℕ) → IsAt c ns d → Leads c root_dentry (reverse ns) d
Leads-IsAt c [] d (e, top) = sym e
Leads-IsAt c (n ∷ ns) d (p, up_is, name, found, at) =
    subst (λ ms. Leads c root_dentry ms d) (sym (reverse-cons n ns))
      (Leads-append c root_dentry p d (reverse ns) n (Leads-IsAt c ns p at) found)

AllNames-append : (ns : List Bytes) (n : Bytes) → AllNames ns → IsName n → AllNames (ns ++ n ∷ [])
AllNames-append [] n all name = (name, tt)
AllNames-append (m ∷ ns) n (first, all) name = (first, AllNames-append ns n all name)

AllNames-reverse : (ns : List Bytes) → AllNames ns → AllNames (reverse ns)
AllNames-reverse [] all = tt
AllNames-reverse (n ∷ ns) (name, all) =
    subst AllNames (sym (reverse-cons n ns))
      (AllNames-append (reverse ns) n (AllNames-reverse ns all) name)

module _ (lookup : Option ℕ → Bytes → Option ℕ) where
  step_found :
      (c : Dcache) (d x : ℕ) (n : Bytes)
      → d_find_child c d n ≡ some x
      → step_to_child lookup c d n ≡ (some x, c)
  unfolding step_to_child
  step_found c d x n found = rw (found, step_to_child)

  -- The body of the loop, once the name `n` is taken off and `rest` is left.
  abbrev round : (fuel : ℕ) → Dcache → ℕ → (n rest : Bytes) → Option ℕ × Dcache
  round fuel c d n rest =
      if leb dname_inline_len (length n)
      then (none, c)
      else if is_dot n
      then walk_from lookup fuel c d rest
      else if is_dot_dot n
      then walk_from lookup fuel c (up c d) rest
      else elim (step_to_child lookup c d n).0 as (λ r. Option ℕ × Dcache) [
        | none ↦ (none, (step_to_child lookup c d n).1)
        | some e ↦ walk_from lookup fuel (step_to_child lookup c d n).1 e rest
      ]

  round_lem :
      (fuel : ℕ) (c : Dcache) (d : ℕ) (p : Bytes) (b : ℕ) (r : Bytes)
      → skip_slashes p ≡ b ∷ r
      → (b == slash) ≡ false
      → walk_from lookup (suc fuel) c d p ≡ round fuel c d (b ∷ component r) (behind r)
  unfolding walk_from
  round_lem fuel c d p b r e f =
      let (comp, rest, front) = at_other b r f in
      rw (e, walk_from)
        (ap (λ n. round fuel c d n (behind (skip_slashes p))) (ap component e ∙ comp)
          ∙ ap (round fuel c d (b ∷ component r)) (ap behind e ∙ rest))

  -- A round over a name that is not "." or "..", of an entry that is there.
  round_found :
      (fuel : ℕ) (c : Dcache) (d x : ℕ) (n rest : Bytes)
      → IsName n
      → length n < dname_inline_len
      → d_find_child c d n ≡ some x
      → round fuel c d n rest ≡ walk_from lookup fuel c x rest
  round_found fuel c d x n rest name short found =
      let fits : leb dname_inline_len (length n) ≡ false = ground arith in
      let step = step_found c d x n found in
      rw (fits, name.not_dot, name.not_dot_dot, ap (λ s. s.0) step)
        (ap (λ s. walk_from lookup fuel s.1 x rest) step)

  walk_from-Leads :
      (fuel : ℕ) (c : Dcache) (d e : ℕ) (p : Bytes)
      → length p < fuel
      → length p < dname_inline_len
      → AllNames (names p)
      → Leads c d (names p) e
      → walk_from lookup fuel c d p ≡ (some e, c)
  unfolding walk_from
  walk_from-Leads zero c d e p enough short all leads = absurd (omega arith)
  walk_from-Leads (suc fuel) c d e p enough short all leads = elim (Skipped-cases p) [
    | inl nil ↦
        let none_left : names p ≡ [] = sym (names-skip_slashes p) ∙ ap names nil in
        rw (nil, walk_from) (ap (λ x. (some x, c)) (subst (λ ms. Leads c d ms e) none_left leads))
    | inr (b, r, found, f) ↦
        let split = sym (names-skip_slashes p) ∙ ap names found ∙ names-component b r f in
        let (name, all') = subst AllNames split all in
        let (x, child, more) = subst (λ ms. Leads c d ms e) split leads in
        let size : length (skip_slashes p) ≡ suc (length r) = ap length found in
        round_lem fuel c d p b r found f
        ∙ round_found fuel c d x (b ∷ component r) (behind r) name
            (omega (arith, length-component r, length-skip_slashes p)) child
        ∙ walk_from-Leads fuel c x e (behind r)
            (omega (arith, length-component r, length-skip_slashes p))
            (omega (arith, length-component r, length-skip_slashes p)) all' more
  ]

  d_lookup_path-IsAt :
      (c : Dcache) (ns : List Bytes) (d : ℕ)
      → AllNames ns
      → length (path_of ns) < path_max
      → IsAt c ns d
      → d_lookup_path lookup c (path_of ns) ≡ (some d, c)
  unfolding d_lookup_path
  d_lookup_path-IsAt c ns d all short at = rw (starts_with_slash-path_of ns) (
      walk_from-Leads (length (path_of ns) + 1) c root_dentry d (path_of ns) (omega arith) short
        (subst AllNames (sym (names-path_of ns all)) (AllNames-reverse ns all))
        (subst (λ ms. Leads c root_dentry ms d) (sym (names-path_of ns all))
          (Leads-IsAt c ns d at)))

-- The path grows from its end.
path_up-IsAt :
    (fuel : ℕ) (c : Dcache) (d : ℕ) (ns : List Bytes) (tmp : Bytes)
    → length ns < fuel
    → length (flat ns) + length tmp < path_max
    → IsAt c ns d
    → path_up fuel c d tmp ≡ ok (reverse (flat ns) ++ tmp)
unfolding path_up
path_up-IsAt zero c d ns tmp enough short at = absurd (omega arith)
path_up-IsAt (suc fuel) c d [] tmp enough short (e, top) = rw (top, path_up)
path_up-IsAt (suc fuel) c d (n ∷ ns) tmp enough short (p, above, name, found, at) =
    let total = length-append (reverse n) (slash ∷ flat ns) in
    let fits : ltb (path_max - 1 - length tmp) (length n + 1) ≡ false =
      ground (arith, total, length-reverse n) in
    let size = length-append n tmp in
    rw (above, path_up)
      (rw (name, fits)
        (path_up-IsAt fuel c p ns (slash ∷ n ++ tmp) (omega arith)
            (omega (arith, total, length-reverse n, size)) at
          ∙ ap ok (
              sym (
                ap (λ xs. xs ++ tmp) (reverse-flat n ns)
                ∙ append_assoc (reverse (flat ns)) (slash ∷ n) tmp))))

-- For an entry that is reached from the root through entries with proper names, each found under
-- its name in its parent, and whose path fits in PATH_MAX: with fuel for its depth, dentry_path
-- answers the path of those names, and d_lookup_path of that path answers the entry and attaches
-- none.
pub d_lookup_path-dentry_path :
    (lookup : Option ℕ → Bytes → Option ℕ) (fuel : ℕ) (c : Dcache) (ns : List Bytes) (d : ℕ)
    → AllNames ns
    → length ns < fuel
    → length (path_of ns) < path_max
    → IsAt c ns d
    → (dentry_path fuel c d path_max ≡ ok (path_of ns))
      × (d_lookup_path lookup c (path_of ns) ≡ (some d, c))
unfolding dentry_path
d_lookup_path-dentry_path lookup fuel c [] d all enough short (e, top) =
    (rw (top, dentry_path), d_lookup_path-IsAt lookup c [] d all short (e, top))
d_lookup_path-dentry_path lookup fuel c (n ∷ ns) d all enough short at =
    let (p, above, name, found, rest) = at in
    let size = length-reverse (flat (n ∷ ns)) in
    let run =
      path_up-IsAt fuel c d (n ∷ ns) [] enough (omega (arith, size)) at
      ∙ ap ok (append-nil (reverse (flat (n ∷ ns)))) in
    let fits : ltb path_max (length (path_of (n ∷ ns)) + 1) ≡ false = ground arith in
    (rw (above, dentry_path) (rw (run, fits)), d_lookup_path-IsAt lookup c (n ∷ ns) d all short at)
