-- ===== src/Mm/PageTable/Space.antt =====
-- What holds of an address space between the calls of mm/mmap.c, and what a write of one entry
-- must show to keep it.
use mini_os.Prelude.{
  ℕ, zero, suc, ◌+◌, ◌^◌, ◌≤◌, ◌<◌, ◌≡◌, ◌⊎◌, inl, inr, sym, ap, ◌∙◌, true, Option, none, some,
  arith, ◌==◌, ==_iff, Bool-cases, Option-cases, get_or,
}
use mini_os.Mm.PageTable.{Pte, Entries, Frames, index, find_pte, pte_set, pte_write}
use mini_os.Mm.PageAlloc.{is_some, virt_to_page, page_count}
use mini_os.Mm.PageTable.Account.{virt_to_page-IsHeld, Accounts, IsHeld}
use mini_os.Mm.PageTable.Walk.{
  find_in, find_out, find_in_same, IsFull, Parts, find_pte-pte_set, find_pte-pte_set_other,
}
use mini_os.Mm.PageTable.Uses.{uses, uses-pte_set, pte_set-IsFull}

-- How often a page is used, by the tables and by all others.
abbrev pub owners : (others : ℕ → ℕ) (n : ℕ) → Entries n → ℕ → ℕ
owners others n es q = others q + uses n es q

-- A page that can be written through an entry is used by this entry alone.
abbrev pub IsPrivate : (others : ℕ → ℕ) (n : ℕ) → Entries n → Type 0
IsPrivate others n es =
    (va : ℕ) (pte : Pte)
    → find_pte n es va ≡ some pte
    → pte_write pte ≡ true
    → owners others n es pte.page ≡ 1

-- `others` counts the uses of each page that are not these tables'.
pub record IsSpace (others : ℕ → ℕ) (f : Frames) (pgd : Entries 2) : Type 0 where
  pub full : IsFull 2 pgd
  pub accounts : Accounts (owners others 2 pgd) f.pages
  pub bounded : (q : ℕ) → owners others 2 pgd q < 2 ^ 31
  pub private : IsPrivate others 2 pgd

-- Two walks part, or they are one walk.
pub Parts-cases :
    (n va other : ℕ) → Parts n va other ⊎ ((k : ℕ) → k ≤ n → index k va ≡ index k other)
Parts-cases zero va other = elim (Bool-cases (index 0 va == index 0 other)) [
  | inr e ↦ inl (0, omega arith, ground arith)
  | inl e ↦ inr (λ k l. bottom k (omega arith) ((==_iff (index 0 va) (index 0 other)).0 e))
]
  where
    bottom : (k : ℕ) → k ≡ 0 → index 0 va ≡ index 0 other → index k va ≡ index k other
    bottom k e same = rw e same
Parts-cases (suc n) va other = elim (Parts-cases n va other) [
  | inl (k, l, d) ↦ inl (k, omega arith, d)
  | inr same ↦ elim (Bool-cases (index (suc n) va == index (suc n) other)) [
    | inr e ↦ inl (suc n, omega arith, ground arith)
    | inl e ↦ inr (λ k l. elim (Bool-cases (k == suc n)) [
      | inr f ↦ same k (ground arith)
      | inl f ↦
          top k ((==_iff k (suc n)).0 f) ((==_iff (index (suc n) va) (index (suc n) other)).0 e)
    ])
  ]
]
  where
    top : (k : ℕ) → k ≡ suc n → index (suc n) va ≡ index (suc n) other → index k va ≡ index k other
    top k e same = rw e same

pub find_pte_same :
    (n : ℕ) (es : Entries n) (va other : ℕ)
    → ((k : ℕ) → k ≤ n → index k va ≡ index k other)
    → find_pte n es other ≡ find_pte n es va
unfolding find_pte
find_pte_same zero es va other same = rw (same 0 (omega arith))
find_pte_same (suc n) es va other same =
    let here = same (suc n) (omega arith) in
    elim (Option-cases (get_or es (index (suc n) va) none)) [
      | inl e ↦
          find_out n es other (ap (λ k. get_or es k none) (sym here) ∙ e) ∙ sym (find_out n es va e)
      | inr ((table, below), e) ↦
          find_in_same n es va other table below (sym here) e
          ∙ find_pte_same n below va other (λ k l. same k (omega arith))
          ∙ sym (find_in n es va table below e)
    ]

-- A page that is mapped is used.
pub uses-find_pte :
    (n : ℕ) (es : Entries n) (va : ℕ) (pte : Pte)
    → IsFull n es
    → find_pte n es va ≡ some pte
    → 0 < uses n es pte.page
uses-find_pte n es va pte full e = ground (arith, uses-pte_set n es va pte none pte.page full e)

module _ (n : ℕ) (es : Entries n) (va : ℕ) (old : Pte) (w : Option Pte) (full : IsFull n es)
    (e : find_pte n es va ≡ some old) where
  -- What any walk finds after the write.
  pub find_pte_cases :
      (other : ℕ) (pte : Pte)
      → find_pte n (pte_set n es va w) other ≡ some pte
      → (w ≡ some pte) ⊎ (find_pte n es other ≡ some pte)
  find_pte_cases other pte g = elim (Parts-cases n va other) [
    | inl parts ↦ inr (sym (find_pte-pte_set_other n es va other w full parts) ∙ g)
    | inr same ↦ inl (
        sym (find_pte-pte_set n es va old w full e)
        ∙ sym (find_pte_same n (pte_set n es va w) va other same)
        ∙ g)
  ]

  pub pte_set-IsPrivate :
      (others : ℕ → ℕ)
      → IsPrivate others n es
      → ((q : ℕ)
          → 0 < owners others n es q
          → owners others n (pte_set n es va w) q ≤ owners others n es q)
      → ((pte : Pte)
          → w ≡ some pte
          → pte_write pte ≡ true
          → owners others n (pte_set n es va w) pte.page ≡ 1)
      → IsPrivate others n (pte_set n es va w)
  pte_set-IsPrivate others private fewer new other pte g writable =
      elim (find_pte_cases other pte g) [
        | inl written ↦ new pte written writable
        | inr stood ↦
            let before = private other pte stood writable in
            let after =
              uses-find_pte n (pte_set n es va w) other pte (pte_set-IsFull n es va w full) g in
            omega (arith, fewer pte.page (omega (arith, before)))
      ]

module _ {others : ℕ → ℕ} {f : Frames} {pgd : Entries 2} (s : IsSpace others f pgd) (q : ℕ)
    (used : 0 < owners others 2 pgd q) where
  held : IsHeld f.pages q (owners others 2 pgd q)
  held = s.accounts.held q used

  pub page_of_used : is_some (virt_to_page f.pages q) ≡ true
  page_of_used = rw (virt_to_page-IsHeld s.accounts q (owners others 2 pgd q) held)

  pub page_count-owners : page_count f.pages (virt_to_page f.pages q) ≡ owners others 2 pgd q
  unfolding page_count
  page_count-owners = rw (virt_to_page-IsHeld s.accounts q (owners others 2 pgd q) held) held.count
