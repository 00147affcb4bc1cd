-- ===== src/Mm/PageTable/Release.antt =====
-- `free_pgtable_level` of mm/mmap.c: giving back the pages of a tree of tables.
use mini_os.Prelude.{
  inl, inr, ◌==◌, ==_iff, Bool-cases, ℕ, zero, suc, ◌+◌, ◌^◌, ◌≤◌, ◌<◌, ◌≡◌, refl, ◌∙◌, none, some,
  [], ◌∷◌, arith,
}
use mini_os.Mm.PageTable.{Entry, Entries, Frames, put_frame, free_frame}
use mini_os.Mm.PageTable.Tree.{free_entries, free_pgtable_level}
use mini_os.Mm.PageTable.Account.{Accounts, Accounts-eq, add_use, one, one_self}
use mini_os.Mm.PageTable.Settle.{
  put_page-Accounts, free_pages-Accounts, put_page-total, free_pages-total,
}
use mini_os.Mm.PageAlloc.Count.{free_total}
use mini_os.Mm.PageTable.Uses.{total, uses}

abbrev pub entry_tables : (n : ℕ) → Entry n → ℕ → ℕ
entry_tables zero pte q = 0
entry_tables (suc n) (table, es) q = one table q + total (λ e. entry_tables n e q) es

-- How often the page at `q` is a table below these entries.
abbrev pub tables : (n : ℕ) → Entries n → ℕ → ℕ
tables n es q = total (λ e. entry_tables n e q) es

pub tables-le-uses : (n : ℕ) (es : Entries n) (q : ℕ) → tables n es q ≤ uses n es q
tables-le-uses n [] q = omega arith
tables-le-uses n (none ∷ es) q = omega (arith, tables-le-uses n es q)
tables-le-uses zero (some pte ∷ es) q = omega (arith, tables-le-uses zero es q)
tables-le-uses (suc n) (some (table, below) ∷ es) q =
    omega (arith, tables-le-uses n below q, tables-le-uses (suc n) es q)

-- A page that is a table has no other use.
abbrev pub IsTree : (others : ℕ → ℕ) (n : ℕ) → Entries n → Type 0
IsTree others n es = (q : ℕ) → 0 < tables n es q → others q + uses n es q ≡ 1

abbrev pub IsBounded : (others : ℕ → ℕ) (n : ℕ) → Entries n → Type 0
IsBounded others n es = (q : ℕ) → others q + uses n es q < 2 ^ 31

bare : (es : Entries 0) (q : ℕ) → tables 0 es q ≡ 0
bare [] q = refl
bare (none ∷ es) q = omega (arith, bare es q)
bare (some pte ∷ es) q = omega (arith, bare es q)

pub free_entries-Accounts :
    (n : ℕ) (others : ℕ → ℕ) (f : Frames) (es : Entries n)
    → IsTree others n es
    → IsBounded others n es
    → Accounts (λ q. others q + uses n es q) f.pages
    → Accounts others (free_entries n f es).pages
unfolding free_entries
free_entries-Accounts n others f [] tree small s = Accounts-eq (λ q. omega arith) s
free_entries-Accounts zero others f (none ∷ es) tree small s =
    free_entries-Accounts zero others f es (λ q l. omega (arith, tree q (omega arith)))
      (λ q. omega (arith, small q)) (Accounts-eq (λ q. omega arith) s)
free_entries-Accounts zero others f (some pte ∷ es) tree small s =
    free_entries-Accounts zero others (put_frame f pte.page) es
      (λ q l. absurd (omega (arith, bare es q))) (λ q. omega (arith, small q))
      (put_page-Accounts pte.page (Accounts-eq (λ q. omega arith) s)
        (omega (arith, one_self pte.page, small pte.page)))
free_entries-Accounts (suc n) others f (none ∷ es) tree small s =
    free_entries-Accounts (suc n) others f es (λ q l. omega (arith, tree q (omega arith)))
      (λ q. omega (arith, small q)) (Accounts-eq (λ q. omega arith) s)
free_entries-Accounts (suc n) others f (some (table, below) ∷ es) tree small s =
    let rest : ℕ → ℕ = λ q. others q + one table q + uses (suc n) es q in
    let inner =
      free_entries-Accounts n rest f below (λ q l. omega (arith, tree q (omega arith)))
        (λ q. omega (arith, small q)) (Accounts-eq (λ q. omega arith) s) in
    let alone = tree table (omega (arith, one_self table)) in
    let freed =
      free_pages-Accounts table (Accounts-eq (λ q. omega arith) inner)
        (omega (arith, alone, one_self table)) in
    free_entries-Accounts (suc n) others (free_frame (free_entries n f below) table) es
      (λ q l. omega (arith, tree q (omega arith), tables-le-uses (suc n) es q))
      (λ q. omega (arith, small q)) freed

-- How many tables there are below these entries.
abbrev pub entry_size : (n : ℕ) → Entry n → ℕ
entry_size zero pte = 0
entry_size (suc n) (table, es) = 1 + total (λ e. entry_size n e) es

abbrev pub size : (n : ℕ) → Entries n → ℕ
size n es = total (λ e. entry_size n e) es

-- A page that is mapped below these entries and is no table is used elsewhere too.
abbrev pub IsShared : (others : ℕ → ℕ) (n : ℕ) → Entries n → Type 0
IsShared others n es = (q : ℕ) → others q ≡ 0 → uses n es q ≤ tables n es q

-- Of a tree whose pages are all used elsewhere too, each table comes back, and nothing else does.
pub free_entries-total :
    (n : ℕ) (others : ℕ → ℕ) (f : Frames) (es : Entries n)
    → IsTree others n es
    → IsBounded others n es
    → IsShared others n es
    → Accounts (λ q. others q + uses n es q) f.pages
    → free_total (free_entries n f es).pages ≡ free_total f.pages + size n es
unfolding free_entries
free_entries-total n others f [] tree small twice s = omega arith
free_entries-total zero others f (none ∷ es) tree small twice s =
    let rest =
      free_entries-total zero others f es (λ q l. omega (arith, tree q (omega arith)))
        (λ q. omega (arith, small q)) (λ q z. omega (arith, twice q z))
        (Accounts-eq (λ q. omega arith) s) in
    omega (arith, rest)
free_entries-total zero others f (some pte ∷ es) tree small twice s =
    let here = one_self pte.page in
    let before =
      Accounts-eq {w = add_use (λ q. others q + uses 0 es q) pte.page} (λ q. omega arith) s in
    let used : 0 < others pte.page = elim (Bool-cases (others pte.page == 0)) [
      | inl z ↦ absurd (
          omega (
            arith,
            twice pte.page ((==_iff (others pte.page) 0).0 z),
            bare (some pte ∷ es) pte.page,
            here,
          ))
      | inr l ↦ ground arith
    ] in
    let kept =
      put_page-total (λ q. others q + uses 0 es q) pte.page before (omega arith)
        (omega (arith, here, small pte.page)) in
    let rest =
      free_entries-total zero others (put_frame f pte.page) es
        (λ q l. absurd (omega (arith, bare es q))) (λ q. omega (arith, small q))
        (λ q z. omega (arith, twice q z))
        (put_page-Accounts pte.page before (omega (arith, here, small pte.page))) in
    omega (arith, rest, kept)
free_entries-total (suc n) others f (none ∷ es) tree small twice s =
    let rest =
      free_entries-total (suc n) others f es (λ q l. omega (arith, tree q (omega arith)))
        (λ q. omega (arith, small q)) (λ q z. omega (arith, twice q z))
        (Accounts-eq (λ q. omega arith) s) in
    omega (arith, rest)
free_entries-total (suc n) others f (some (table, below) ∷ es) tree small twice s =
    let inside : ℕ → ℕ = λ q. others q + one table q + uses (suc n) es q in
    let alone = tree table (omega (arith, one_self table)) in
    let here : (q : ℕ)
        → 0 < tables n below q
        → others q + one table q + uses n below q + uses (suc n) es q ≡ 1 =
      λ q l. omega (arith, tree q (omega arith)) in
    let start = Accounts-eq {w = λ q. inside q + uses n below q} (λ q. omega arith) s in
    let first =
      free_entries-total n inside f below (λ q l. omega (arith, here q l))
        (λ q. omega (arith, small q))
        (λ q z. omega (arith, twice q (omega arith), tables-le-uses (suc n) es q)) start in
    let inner =
      free_entries-Accounts n inside f below (λ q l. omega (arith, here q l))
        (λ q. omega (arith, small q)) start in
    let last : others table + uses (suc n) es table ≡ 0 = omega (arith, alone, one_self table) in
    let table_back =
      free_pages-total (λ q. others q + uses (suc n) es q) table
        (Accounts-eq (λ q. omega arith) inner) last in
    let freed =
      free_pages-Accounts table
        (Accounts-eq {w = λ q. add_use (λ k. others k + uses (suc n) es k) table q}
          (λ q. omega arith) inner)
        last in
    let rest =
      free_entries-total (suc n) others (free_frame (free_entries n f below) table) es
        (λ q l. omega (arith, tree q (omega arith), tables-le-uses (suc n) es q))
        (λ q. omega (arith, small q)) (λ q z. omega (arith, twice q z, tables-le-uses n below q))
        freed in
    omega (arith, rest, table_back, first)

-- Neither call writes the bytes of a page.
pub free_entries-bytes :
    (n : ℕ) (f : Frames) (es : Entries n) → (free_entries n f es).bytes ≡ f.bytes
unfolding free_entries
free_entries-bytes n f [] = refl
free_entries-bytes zero f (none ∷ es) = free_entries-bytes zero f es
free_entries-bytes zero f (some pte ∷ es) = free_entries-bytes zero (put_frame f pte.page) es
free_entries-bytes (suc n) f (none ∷ es) = free_entries-bytes (suc n) f es
free_entries-bytes (suc n) f (some (table, below) ∷ es) =
    free_entries-bytes (suc n) (free_frame (free_entries n f below) table) es
    ∙ free_entries-bytes n f below

-- A tree whose tables have one use each, and whose root maps nothing else, is given back: each of
-- its pages loses one use for each entry, and the account of the others is left.
pub free_pgtable_level-Accounts :
    (n : ℕ) (others : ℕ → ℕ) (f : Frames) (pgd : ℕ) (es : Entries n)
    → IsTree (add_use others pgd) n es
    → IsBounded (add_use others pgd) n es
    → others pgd + uses n es pgd ≡ 0
    → Accounts (λ q. add_use others pgd q + uses n es q) f.pages
    → Accounts others (free_pgtable_level n f (pgd, es)).pages
unfolding free_pgtable_level
free_pgtable_level-Accounts n others f pgd es tree small alone s =
    free_pages-Accounts pgd (free_entries-Accounts n (add_use others pgd) f es tree small s)
      (omega (arith, alone))

-- Of a tree whose pages are all used elsewhere, its root and each table come back.
pub free_pgtable_level-total :
    (n : ℕ) (others : ℕ → ℕ) (f : Frames) (pgd : ℕ) (es : Entries n)
    → IsTree (add_use others pgd) n es
    → IsBounded (add_use others pgd) n es
    → IsShared (add_use others pgd) n es
    → others pgd + uses n es pgd ≡ 0
    → Accounts (λ q. add_use others pgd q + uses n es q) f.pages
    → free_total (free_pgtable_level n f (pgd, es)).pages ≡ free_total f.pages + size n es + 1
unfolding free_pgtable_level
free_pgtable_level-total n others f pgd es tree small twice alone s =
    let inner = free_entries-total n (add_use others pgd) f es tree small twice s in
    let root =
      free_pages-total others pgd (free_entries-Accounts n (add_use others pgd) f es tree small s)
        (omega (arith, alone)) in
    omega (arith, inner, root)
