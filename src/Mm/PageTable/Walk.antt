-- ===== src/Mm/PageTable/Walk.antt =====
-- The walk of `l3_slot` down the tables: what a read finds after a write through it.
use mini_os.Prelude.{
  ℕ, zero, suc, ◌/◌, ◌%◌, ◌^◌, ◌≤◌, ◌<◌, ◌≡◌, ◌≢◌, ◌⊎◌, inl, inr, refl, sym, ap, ◌∙◌, Option, none,
  some, List, [], ◌∷◌, arith, ◌==◌, ==_iff, Bool-cases, Option-cases, length, get_or, set,
}
use mathlib.Core.Option.{some-ne-none}
use mini_os.Mm.PageTable.{Pte, Entry, Entries, pte_entries, index, find_pte, pte_set}

module _ {ℓ} {A : Type ℓ} where
  pub length-set : (xs : List A) (i : ℕ) (v : A) → length (set xs i v) ≡ length xs
  length-set [] i v = refl
  length-set (x ∷ xs) zero v = refl
  length-set (x ∷ xs) (suc i) v = ap suc (length-set xs i v)

  pub get_or-set_self :
      (xs : List A) (i : ℕ) (v d : A) → i < length xs → get_or (set xs i v) i d ≡ v
  get_or-set_self [] i v d l = absurd (omega arith)
  get_or-set_self (x ∷ xs) zero v d l = refl
  get_or-set_self (x ∷ xs) (suc i) v d l = get_or-set_self xs i v d (omega arith)

  pub get_or-set_ne :
      (xs : List A) (i j : ℕ) (v d : A) → j ≢ i → get_or (set xs i v) j d ≡ get_or xs j d
  get_or-set_ne [] i j v d n = refl
  get_or-set_ne (x ∷ xs) zero zero v d n = absurd (n refl)
  get_or-set_ne (x ∷ xs) zero (suc j) v d n = refl
  get_or-set_ne (x ∷ xs) (suc i) zero v d n = refl
  get_or-set_ne (x ∷ xs) (suc i) (suc j) v d n = get_or-set_ne xs i j v d (λ e. n (ap suc e))

-- Every table has its 512 entries.
abbrev pub IsFull : (n : ℕ) → Entries n → Type 0
IsFull zero es = length es ≡ pte_entries
IsFull (suc n) es =
    (length es ≡ pte_entries)
    × ((i table : ℕ) (below : Entries n) → get_or es i none ≡ some (table, below) → IsFull n below)

pub length-IsFull : (n : ℕ) (es : Entries n) → IsFull n es → length es ≡ pte_entries
length-IsFull zero es full = full
length-IsFull (suc n) es full = full.0

pub index-lt : (n va : ℕ) → index n va < pte_entries
unfolding index
index-lt n va = omega arith

pub in_table : (n va : ℕ) (es : Entries n) → IsFull n es → index n va < length es
in_table n va es full = omega (arith, index-lt n va, length-IsFull n es full)

-- The walks to two addresses part at some table.
abbrev pub Parts : (n va other : ℕ) → Type 0
Parts n va other = (k : ℕ) × (k ≤ n) × (index k va ≢ index k other)

low_page :
    (va other : ℕ)
    → va < 2 ^ 39
    → other < 2 ^ 39
    → va / 2 ^ 30 % 512 ≡ other / 2 ^ 30 % 512
    → va / 2 ^ 21 % 512 ≡ other / 2 ^ 21 % 512
    → va / 2 ^ 12 % 512 ≡ other / 2 ^ 12 % 512
    → va / 4096 ≡ other / 4096
low_page va other l m e f g = omega arith

-- Two addresses of the user half on different pages.
pub Parts-page :
    (va other : ℕ) → va < 2 ^ 39 → other < 2 ^ 39 → va / 4096 ≢ other / 4096 → Parts 2 va other
unfolding index
Parts-page va other l m n = elim (Bool-cases (va / 2 ^ 30 % 512 == other / 2 ^ 30 % 512)) [
  | inr e ↦ (2, omega arith, ground arith)
  | inl e ↦ elim (Bool-cases (va / 2 ^ 21 % 512 == other / 2 ^ 21 % 512)) [
    | inr f ↦ (1, omega arith, ground arith)
    | inl f ↦ (
      0,
      omega arith,
      λ same. n (
          low_page va other l m ((==_iff (va / 2 ^ 30 % 512) (other / 2 ^ 30 % 512)).0 e)
            ((==_iff (va / 2 ^ 21 % 512) (other / 2 ^ 21 % 512)).0 f) same),
    )
  ]
]

-- Two addresses on one page take one walk.
pub index-page : (k va other : ℕ) → k ≤ 2 → va / 4096 ≡ other / 4096 → index k va ≡ index k other
unfolding index
index-page zero va other l e = omega arith
index-page (suc zero) va other l e = omega arith
index-page (suc (suc zero)) va other l e = omega arith
index-page (suc (suc (suc k))) va other l e = absurd (omega arith)

-- The walks part in this table, or both go on in the same table below it.
pub Parts-step :
    (n va other : ℕ)
    → Parts (suc n) va other
    → (index (suc n) other ≢ index (suc n) va)
      ⊎ ((index (suc n) other ≡ index (suc n) va) × Parts n va other)
Parts-step n va other (k, l, d) = elim (Bool-cases (index (suc n) other == index (suc n) va)) [
  | inr e ↦ inl (ground arith)
  | inl e ↦
      let same = (==_iff (index (suc n) other) (index (suc n) va)).0 e in
      elim (Bool-cases (k == suc n)) [
        | inr f ↦ inr (same, (k, ground arith, d))
        | inl f ↦ absurd (d (top k ((==_iff k (suc n)).0 f) same))
      ]
]
  where
    top : (k : ℕ) → k ≡ suc n → index (suc n) other ≡ index (suc n) va → index k va ≡ index k other
    top k at same = rw at (sym same)

module _ (n : ℕ) (es : Entries (suc n)) (va : ℕ) where
  abbrev here : Option (Entry (suc n))
  here = get_or es (index (suc n) va) none

  pub find_in :
      (table : ℕ) (below : Entries n)
      → get_or es (index (suc n) va) none ≡ some (table, below)
      → find_pte (suc n) es va ≡ find_pte n below va
  unfolding find_pte
  find_in table below e = rw (e, find_pte)

  pub find_out : get_or es (index (suc n) va) none ≡ none → find_pte (suc n) es va ≡ none
  unfolding find_pte
  find_out e = rw (e, find_pte)

  pub write_in :
      (table : ℕ) (below : Entries n) (w : Option Pte)
      → get_or es (index (suc n) va) none ≡ some (table, below)
      → pte_set (suc n) es va w ≡ set es (index (suc n) va) (some (table, pte_set n below va w))
  unfolding pte_set
  write_in table below w e = rw (e, pte_set)

  pub write_out :
      (w : Option Pte) → get_or es (index (suc n) va) none ≡ none → pte_set (suc n) es va w ≡ es
  unfolding pte_set
  write_out w e = rw (e, pte_set)

  -- A walk that found an entry went through a table.
  pub table_of_find :
      (pte : Pte)
      → find_pte (suc n) es va ≡ some pte
      → (table : ℕ) × (below : Entries n) × (get_or es (index (suc n) va) none
          ≡ some (table, below))
        × (find_pte n below va ≡ some pte)
  table_of_find pte e = elim (Option-cases (get_or es (index (suc n) va) none)) [
    | inl f ↦ absurd (some-ne-none pte (sym e ∙ find_out f))
    | inr ((table, below), f) ↦ (table, below, f, sym (find_in table below f) ∙ e)
  ]

  -- What a walk finds once the table below is another one.
  pub find_pte-set :
      (other table : ℕ) (below : Entries n)
      → IsFull (suc n) es
      → index (suc n) other ≡ index (suc n) va
      → find_pte (suc n) (set es (index (suc n) va) (some (table, below))) other
        ≡ find_pte n below other
  unfolding find_pte
  find_pte-set other table below full same = rw (
    find_pte,
    same,
    get_or-set_self es (index (suc n) va) (some (table, below)) none (in_table (suc n) va es full),
  )

  pub find_pte-set_other :
      (other table : ℕ) (below : Entries n)
      → IsFull (suc n) es
      → Parts (suc n) va other
      → (index (suc n) other ≡ index (suc n) va
          → Parts n va other
          → find_pte n below other ≡ find_pte (suc n) es other)
      → find_pte (suc n) (set es (index (suc n) va) (some (table, below))) other
        ≡ find_pte (suc n) es other
  unfolding find_pte
  find_pte-set_other other table below full parts kept = elim (Parts-step n va other parts) [
    | inl away ↦ rw (
      find_pte,
      get_or-set_ne es (index (suc n) va) (index (suc n) other) (some (table, below)) none away,
    )
    | inr (same, further) ↦ find_pte-set other table below full same ∙ kept same further
  ]

  -- The same slot is looked at by two walks with one index.
  pub find_in_same :
      (other table : ℕ) (below : Entries n)
      → index (suc n) other ≡ index (suc n) va
      → get_or es (index (suc n) va) none ≡ some (table, below)
      → find_pte (suc n) es other ≡ find_pte n below other
  unfolding find_pte
  find_in_same other table below same e = rw (find_pte, same, e)

-- A write where an entry was found is what the next read finds.
pub find_pte-pte_set :
    (n : ℕ) (es : Entries n) (va : ℕ) (old : Pte) (w : Option Pte)
    → IsFull n es
    → find_pte n es va ≡ some old
    → find_pte n (pte_set n es va w) va ≡ w
unfolding find_pte pte_set
find_pte-pte_set zero es va old w full e =
    get_or-set_self es (index 0 va) w none (in_table 0 va es full)
find_pte-pte_set (suc n) es va old w full e =
    let (table, below, f, g) = table_of_find n es va old e in
    ap (λ t. find_pte (suc n) t va) (write_in n es va table below w f)
    ∙ find_pte-set n es va va table (pte_set n below va w) full refl
    ∙ find_pte-pte_set n below va old w (full.1 (index (suc n) va) table below f) g

pub last_index : (k va other : ℕ) → k ≡ 0 → index 0 va ≡ index 0 other → index k va ≡ index k other
last_index k va other e same = rw e same

-- A write leaves the walks alone that part from its own.
pub find_pte-pte_set_other :
    (n : ℕ) (es : Entries n) (va other : ℕ) (w : Option Pte)
    → IsFull n es
    → Parts n va other
    → find_pte n (pte_set n es va w) other ≡ find_pte n es other
unfolding find_pte pte_set
find_pte-pte_set_other zero es va other w full (k, l, d) =
    get_or-set_ne es (index 0 va) (index 0 other) w none
      (λ e. d (last_index k va other (omega arith) (sym e)))
find_pte-pte_set_other (suc n) es va other w full parts =
    elim (Option-cases (get_or es (index (suc n) va) none)) [
      | inl e ↦ ap (λ t. find_pte (suc n) t other) (write_out n es va w e)
      | inr ((table, below), e) ↦
          let kept =
            find_pte-pte_set_other n below va other w (full.1 (index (suc n) va) table below e) in
          ap (λ t. find_pte (suc n) t other) (write_in n es va table below w e)
          ∙ find_pte-set_other n es va other table (pte_set n below va w) full parts
              (λ same further. kept further ∙ sym (find_in_same n es va other table below same e))
    ]
