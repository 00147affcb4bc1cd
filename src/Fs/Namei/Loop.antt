-- ===== src/Fs/Namei/Loop.antt =====
-- The loop of `path_resolve`: its stack stands for names, and it ends within its fuel and its bounds.
use mini_os.Prelude.{
  ℕ, zero, suc, ◌+◌, ◌≤◌, ◌<◌, ◌≡◌, ◌≢◌, ◌⊎◌, inl, inr, refl, sym, ap, ◌∙◌, false, List, [], ◌∷◌,
  arith, ◌==◌, leb, if◌then◌else◌, Bool-cases, length, length-append, has,
}
use mathlib.Core.List.{reverse, reverse-cons, tail}
use mini_os.Kernel.Task.{enametoolong}
use mini_os.Fs.Namei.{
  Bytes, Result, ok, err, slash, path_max, skip_slashes, component, behind, is_dot, is_dot_dot,
  pop_component, push_component, ends_in_slash, resolve_from,
}
use mini_os.Fs.Namei.Names.{
  names, at_other, skip_here, names-skip_slashes, names-component, AllNames, flat, enter, follow,
  component-whole, length-component, length-skip_slashes, pop_component-flat, push_component-flat,
}

-- The stack of the loop stands for names: as their bytes, or as the "/" of an untouched base.
abbrev pub Stands : Bytes → List Bytes → Type 0
Stands stack ns = (stack ≡ flat ns) ⊎ ((stack ≡ slash ∷ []) × (ns ≡ []))

pop-Stands :
    (stack : Bytes) (ns : List Bytes)
    → AllNames ns
    → Stands stack ns
    → Stands (pop_component stack) (tail ns)
unfolding pop_component
pop-Stands stack ns all (inl e) = inl (ap pop_component e ∙ pop_component-flat ns all)
pop-Stands stack ns all (inr (e, f)) = inl (ap pop_component e ∙ ap (λ m. flat (tail m)) (sym f))

push-Stands :
    (n stack : Bytes) (ns : List Bytes)
    → AllNames ns
    → Stands stack ns
    → push_component n stack ≡ flat (n ∷ ns)
unfolding push_component
push-Stands n stack ns all (inl e) = ap (push_component n) e ∙ push_component-flat n ns all
push-Stands n stack ns all (inr (e, f)) = ap (push_component n) e ∙ ap (λ m. flat (n ∷ m)) (sym f)

tail-AllNames : (ns : List Bytes) → AllNames ns → AllNames (tail ns)
tail-AllNames [] all = all
tail-AllNames (n ∷ ns) (first, all) = all

length-pop : (stack : Bytes) → length (pop_component stack) ≤ length stack
unfolding pop_component
length-pop [] = omega arith
length-pop (c ∷ stack) = ground (arith, length-pop stack)

pub length-reverse : (xs : Bytes) → length (reverse xs) ≡ length xs
length-reverse [] = refl
length-reverse (x ∷ xs) =
    ap length (reverse-cons x xs)
    ∙ omega (arith, length-append (reverse xs) (x ∷ []), length-reverse xs)

length-push : (n stack : Bytes) → length (push_component n stack) ≤ length stack + 1 + length n
unfolding push_component
length-push n stack = elim (Bool-cases (ends_in_slash stack)) [
  | inl e ↦ rw e (omega (arith, length-append (reverse n) stack, length-reverse n))
  | inr e ↦ rw e (omega (arith, length-append (reverse n) (slash ∷ stack), length-reverse n))
]

-- The bytes that the rest of the path may still ask for, a slash in front of it included.
abbrev pub need : Bytes → ℕ
need [] = 0
need (c ∷ p) = if c == slash then suc (length p) else suc (suc (length p))

-- What is left once the slashes in front are gone.
abbrev pub Skipped : Bytes → Type 0
Skipped p =
    (skip_slashes p ≡ [])
    ⊎ ((c : ℕ) × (r : Bytes) × (skip_slashes p ≡ c ∷ r) × ((c == slash) ≡ false))

pub Skipped-cases : (p : Bytes) → Skipped p
Skipped-cases [] = inl refl
Skipped-cases (c ∷ p) = elim (Bool-cases (c == slash)) [
  | inl e ↦ rw e (Skipped-cases p)
  | inr e ↦ inr (c, p, skip_here c p e, e)
]

need-le : (p : Bytes) → need p ≤ length p + 1
need-le [] = omega arith
need-le (c ∷ p) = ground arith

need-skip : (p : Bytes) → need (skip_slashes p) ≤ need p
need-skip [] = omega arith
need-skip (c ∷ p) = elim (Bool-cases (c == slash)) [
  | inl e ↦ rw e (omega (arith, need-le (skip_slashes p), length-skip_slashes p))
  | inr e ↦ ap_le (skip_here c p e)
]
  where
    ap_le : skip_slashes (c ∷ p) ≡ c ∷ p → need (skip_slashes (c ∷ p)) ≤ need (c ∷ p)
    ap_le e = omega (arith, ap need e)

need-behind : (p : Bytes) → need (behind p) ≤ length (behind p)
need-behind [] = omega arith
need-behind (c ∷ p) = elim (Bool-cases (c == slash)) [
  | inl e ↦ rw e (rw e (omega arith))
  | inr e ↦ rw e (need-behind p)
]

-- What the loop answers from a stack that stands for `ns`: the stack of the names that the path
-- leads to, or the error, and then the path was long.
abbrev pub LoopOutcome : (stack : Bytes) (ns : List Bytes) (p : Bytes) → Result Bytes → Type 0
LoopOutcome stack ns p out =
    ((s : Bytes) × (out ≡ ok s)
      × Stands s (follow ns (names p))
      × AllNames (follow ns (names p))
      × (length s < path_max))
    ⊎ ((out ≡ err enametoolong) × (path_max ≤ length stack + need p))

-- One round that took the name `n` off the path `p` and went on with `rest`.
later :
    (stack after : Bytes) (ns to : List Bytes) (p rest n : Bytes)
    → names p ≡ n ∷ names rest
    → enter ns n ≡ to
    → length after + need rest ≤ length stack + need p
    → (out : Result Bytes) → LoopOutcome after to rest out
    → LoopOutcome stack ns p out
later stack after ns to p rest n split goes room out (inl (s, e, stands, all, short)) =
    let same : follow ns (names p) ≡ follow to (names rest) =
      ap (follow ns) split ∙ ap (λ m. follow m (names rest)) goes in
    inl (s, e, rw same stands, rw same all, short)
later stack after ns to p rest n split goes room out (inr (e, long)) = inr (e, omega arith)

-- The body of the loop, once the name `n` is taken off and `rest` is left.
abbrev round : (fuel : ℕ) (stack n rest : Bytes) → Result Bytes
round fuel stack n rest =
    if leb path_max (length n)
    then err enametoolong
    else if is_dot n
    then resolve_from fuel stack rest
    else if is_dot_dot n
    then resolve_from fuel (pop_component stack) rest
    else if leb path_max (length stack + 1 + length n)
    then err enametoolong
    else resolve_from fuel (push_component n stack) rest

round_lem :
    (fuel : ℕ) (stack p : Bytes) (c : ℕ) (r : Bytes)
    → skip_slashes p ≡ c ∷ r
    → (c == slash) ≡ false
    → resolve_from (suc fuel) stack p ≡ round fuel stack (c ∷ component r) (behind r)
unfolding resolve_from
round_lem fuel stack p c r e f =
    let (comp, rest, front) = at_other c r f in
    rw (e, resolve_from)
      (ap (λ n. round fuel stack n (behind (skip_slashes p))) (ap component e ∙ comp)
        ∙ ap (round fuel stack (c ∷ component r)) (ap behind e ∙ rest))

module _ (fuel : ℕ) (stack : Bytes) (ns : List Bytes) (p : Bytes) (n rest : Bytes)
    (split : names p ≡ n ∷ names rest) (filled : n ≢ []) (whole : has slash n ≡ false)
    (short : length stack < path_max) (all : AllNames ns) (stands : Stands stack ns)
    (room : 1 + length n + need rest ≤ need p)
    (runs : (after : Bytes) (to : List Bytes)
      → length after < path_max
      → AllNames to
      → Stands after to
      → LoopOutcome after to rest (resolve_from fuel after rest)) where
  round-LoopOutcome : LoopOutcome stack ns p (round fuel stack n rest)
  round-LoopOutcome = elim (Bool-cases (leb path_max (length n))) [
    | inl long ↦ rw long (inr (refl, ground arith))
    | inr fits ↦ rw fits (elim (Bool-cases (is_dot n)) [
      | inl stay ↦ rw stay (
          later stack stack ns ns p rest n split (rw stay) (omega arith)
            (resolve_from fuel stack rest) (runs stack ns short all stands))
      | inr on ↦ rw on (elim (Bool-cases (is_dot_dot n)) [
        | inl back ↦ rw back (
            later stack (pop_component stack) ns (tail ns) p rest n split (rw (on, back))
              (omega (arith, length-pop stack)) (resolve_from fuel (pop_component stack) rest)
              (runs (pop_component stack) (tail ns) (omega (arith, length-pop stack))
                (tail-AllNames ns all) (pop-Stands stack ns all stands)))
        | inr forth ↦ rw forth (elim (Bool-cases (leb path_max (length stack + 1 + length n))) [
          | inl full ↦ rw full (inr (refl, ground arith))
          | inr space ↦ rw space (
              let grown = length-push n stack in
              later stack (push_component n stack) ns (n ∷ ns) p rest n split (rw (on, forth))
                (omega (arith, grown)) (resolve_from fuel (push_component n stack) rest)
                (runs (push_component n stack) (n ∷ ns) (ground (arith, grown))
                  (
                    record { filled = filled; whole = whole; not_dot = on; not_dot_dot = forth },
                    all,
                  )
                  (inl (push-Stands n stack ns all stands))))
        ])
      ])
    ])
  ]

need_first : (c : ℕ) (r : Bytes) → (c == slash) ≡ false → need (c ∷ r) ≡ length r + 2
need_first c r f = rw f (omega arith)

pub resolve_from-LoopOutcome :
    (fuel : ℕ) (stack : Bytes) (ns : List Bytes) (p : Bytes)
    → length p < fuel
    → length stack < path_max
    → AllNames ns
    → Stands stack ns
    → LoopOutcome stack ns p (resolve_from fuel stack p)
unfolding resolve_from
resolve_from-LoopOutcome zero stack ns p enough short all stands = absurd (omega arith)
resolve_from-LoopOutcome (suc fuel) stack ns p enough short all stands = elim (Skipped-cases p) [
  | inl e ↦
      let none_left : names p ≡ [] = sym (names-skip_slashes p) ∙ ap names e in
      inl (stack, rw (e, resolve_from), rw none_left stands, rw none_left all, short)
  | inr (c, r, e, f) ↦ rw (round_lem fuel stack p c r e f) (
      round-LoopOutcome fuel stack ns p (c ∷ component r) (behind r)
        (sym (names-skip_slashes p) ∙ ap names e ∙ names-component c r f) (λ nil. cc (nil))
        (ground (arith, component-whole r)) short all stands
        (omega (arith, need-skip p, ap need e, need_first c r f, length-component r, need-behind r))
        (λ after to s a h.
          resolve_from-LoopOutcome fuel after to (behind r)
            (omega (arith, length-component r, length-skip_slashes p, ap length e)) s a h))
]
