-- ===== src/Mm/PageTable/Uses.antt =====
-- How often the tables of an address space use each page: as a table, or as a page that is mapped.
use mathlib.Core.Path.{subst}
use mini_os.Prelude.{
  ℕ, zero, suc, ◌+◌, ◌<◌, ◌≡◌, inl, inr, refl, sym, ap, ◌∙◌, Option, none, some, List, [], ◌∷◌,
  arith, ◌==◌, ==_iff, Bool-cases, Option-cases, length, get_or, set,
}
use mathlib.Core.Option.{some-ne-none, some-injective}
use mini_os.Mm.PageTable.{Pte, Entry, Entries, pte_entries, no_entries, index, find_pte, pte_set}
use mini_os.Mm.PageTable.Account.{one}
use mini_os.Mm.PageTable.Walk.{
  IsFull, length-set, get_or-set_self, get_or-set_ne, in_table, table_of_find, write_in, write_out,
  find_out,
}

module _ {A : Type 0} (f : A → ℕ) where
  abbrev pub of_option : Option A → ℕ
  of_option none = 0
  of_option (some x) = f x

  abbrev pub total : List (Option A) → ℕ
  total [] = 0
  total (e ∷ es) = of_option e + total es

  pub total-set :
      (es : List (Option A)) (i : ℕ) (w : Option A)
      → i < length es
      → total (set es i w) + of_option (get_or es i none) ≡ total es + of_option w
  total-set [] i w l = absurd (omega arith)
  total-set (e ∷ es) zero w l = omega arith
  total-set (e ∷ es) (suc i) w l = omega (arith, total-set es i w (omega arith))

abbrev pub entry_uses : (n : ℕ) → Entry n → ℕ → ℕ
entry_uses zero pte q = one pte.page q
entry_uses (suc n) (table, es) q = one table q + total (λ e. entry_uses n e q) es

abbrev pub uses : (n : ℕ) → Entries n → ℕ → ℕ
uses n es q = total (λ e. entry_uses n e q) es

abbrev pub slot_uses : (n : ℕ) → Option (Entry n) → ℕ → ℕ
slot_uses n e q = of_option (λ x. entry_uses n x q) e

pub uses-set :
    (n : ℕ) (es : Entries n) (i : ℕ) (w : Option (Entry n)) (q : ℕ)
    → i < length es
    → uses n (set es i w) q + slot_uses n (get_or es i none) q ≡ uses n es q + slot_uses n w q
uses-set n es i w q l = total-set (λ e. entry_uses n e q) es i w l

pub uses-no_entries : (n count q : ℕ) → uses n (no_entries n count) q ≡ 0
uses-no_entries n zero q = refl
uses-no_entries n (suc count) q = omega (arith, uses-no_entries n count q)

length-no_entries : (n count : ℕ) → length (no_entries n count) ≡ count
length-no_entries n zero = refl
length-no_entries n (suc count) = ap suc (length-no_entries n count)

get_or-no_entries : (n count i : ℕ) → get_or (no_entries n count) i none ≡ none
get_or-no_entries n zero i = refl
get_or-no_entries n (suc count) zero = refl
get_or-no_entries n (suc count) (suc i) = get_or-no_entries n count i

pub no_entries-IsFull : (n : ℕ) → IsFull n (no_entries n pte_entries)
no_entries-IsFull zero = length-no_entries 0 pte_entries
no_entries-IsFull (suc n) = (
  length-no_entries (suc n) pte_entries,
  λ i table below e.
      absurd (some-ne-none (table, below) (sym e ∙ get_or-no_entries (suc n) pte_entries i)),
)

pub find_pte-no_entries : (n va : ℕ) → find_pte n (no_entries n pte_entries) va ≡ none
unfolding find_pte
find_pte-no_entries zero va = get_or-no_entries 0 pte_entries (index 0 va)
find_pte-no_entries (suc n) va =
    find_out n (no_entries (suc n) pte_entries) va
      (get_or-no_entries (suc n) pte_entries (index (suc n) va))

index_of_entry :
    {A : Type 0} (es : List (Option A)) (i : ℕ) (x : A) → get_or es i none ≡ some x → i < length es
index_of_entry [] i x e = absurd (some-ne-none x (sym e))
index_of_entry (y ∷ es) zero x e = omega arith
index_of_entry (y ∷ es) (suc i) x e = omega (arith, index_of_entry es i x e)

-- A table that stays full when one of its entries is changed to a full one.
pub set-IsFull :
    (n : ℕ) (es : Entries (suc n)) (i table : ℕ) (below : Entries n)
    → IsFull (suc n) es
    → IsFull n below
    → IsFull (suc n) (set es i (some (table, below)))
set-IsFull n es i table below (len, full) ok = (
  length-set es i (some (table, below)) ∙ len,
  λ j t b e. elim (Bool-cases (j == i)) [
    | inl here ↦ written j t b ((==_iff j i).0 here) e
    | inr off ↦
        full j t b (sym (get_or-set_ne es i j (some (table, below)) none (ground arith)) ∙ e)
  ],
)
  where
    written :
        (j t : ℕ) (b : Entries n)
        → j ≡ i
        → get_or (set es i (some (table, below))) j none ≡ some (t, b)
        → IsFull n b
    written j t b at e =
        let found = sym (ap (λ k. get_or (set es i (some (table, below))) k none) at) ∙ e in
        let inside = index_of_entry (set es i (some (table, below))) i (t, b) found in
        let stored =
          get_or-set_self es i (some (table, below)) none
            (omega (arith, inside, length-set es i (some (table, below)))) in
        subst (λ x. IsFull n x)
          (ap (λ x. x.1) (some-injective (table, below) (t, b) (sym stored ∙ found))) ok

pub pte_set-IsFull :
    (n : ℕ) (es : Entries n) (va : ℕ) (w : Option Pte) → IsFull n es → IsFull n (pte_set n es va w)
unfolding pte_set
pte_set-IsFull zero es va w full = length-set es (index 0 va) w ∙ full
pte_set-IsFull (suc n) es va w full = elim (Option-cases (get_or es (index (suc n) va) none)) [
  | inl e ↦ rw (write_out n es va w e) full
  | inr ((table, below), e) ↦ rw (write_in n es va table below w e) (
      set-IsFull n es (index (suc n) va) table (pte_set n below va w) full
        (pte_set-IsFull n below va w (full.1 (index (suc n) va) table below e)))
]

-- A write changes the uses by what it writes and what it writes over.
pub uses-pte_set :
    (n : ℕ) (es : Entries n) (va : ℕ) (old : Pte) (w : Option Pte) (q : ℕ)
    → IsFull n es
    → find_pte n es va ≡ some old
    → uses n (pte_set n es va w) q + one old.page q ≡ uses n es q + slot_uses 0 w q
unfolding find_pte pte_set
uses-pte_set zero es va old w q full e =
    let moved = uses-set 0 es (index 0 va) w q (in_table 0 va es full) in
    omega (arith, moved, ap (λ e. slot_uses 0 e q) e)
uses-pte_set (suc n) es va old w q full e =
    let (table, below, f, g) = table_of_find n es va old e in
    let i = index (suc n) va in
    let new : Option (Entry (suc n)) = some (table, pte_set n below va w) in
    let moved = uses-set (suc n) es i new q (in_table (suc n) va es full) in
    let inner = uses-pte_set n below va old w q (full.1 i table below f) g in
    let before = ap (λ e. slot_uses (suc n) e q) f in
    rw (write_in n es va table below w f) (omega (arith, moved, before, inner))
