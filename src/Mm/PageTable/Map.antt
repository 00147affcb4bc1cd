-- ===== src/Mm/PageTable/Map.antt =====
-- `map_page` of mm/mmap.c and the tables that it makes on its way.
use mini_os.Prelude.{
  ℕ, zero, suc, ◌+◌, ◌≤◌, ◌<◌, ◌≡◌, inl, inr, refl, sym, ap, ◌∙◌, Bool, true, false, none, some,
  arith, ◌==◌, Bool-cases, Option-cases, get_or, set,
}
use mathlib.Core.Bool.{true≢false}
use mini_os.Prelude.Int.{pos}
use mini_os.Mm.PageAlloc.{alloc_pages}
use mini_os.Mm.PageTable.{
  Pte, Entries, Frames, pte_entries, no_entries, index, find_pte, get_or_create_table, map_from,
  take_page,
}
use mini_os.Mm.PageTable.Account.{Accounts, Accounts-eq, one, one-unused, alloc_pages-Taken}
use mini_os.Mm.PageTable.Walk.{
  IsFull, Parts, length-set, get_or-set_self, get_or-set_ne, in_table, find_in, find_out,
  find_in_same, find_pte-set, find_pte-set_other, last_index,
}
use mini_os.Mm.PageTable.Uses.{
  uses, slot_uses, uses-set, uses-no_entries, no_entries-IsFull, find_pte-no_entries, set-IsFull,
}

-- The use of the page by its caller, which passes to the entry once that is written.
abbrev pub unless : Bool → Pte → ℕ → ℕ
unless true pte q = 0
unless false pte q = one pte.page q

pub unless-le : (done : Bool) (pte : Pte) (q : ℕ) → unless done pte q ≤ one pte.page q
unless-le true pte q = omega arith
unless-le false pte q = omega arith

-- What `map_page` leaves of the tables, where the caller held a use of the page and nothing was
-- mapped at `va`. `others` are the uses that are neither the caller's nor the tables'.
pub record Mapped (n : ℕ) (others : ℕ → ℕ) (content : ℕ → ℕ → ℕ) (es : Entries n) (va : ℕ)
    (pte : Pte) (out : Bool × Entries n × Frames) : Type 0 where
  pub full : IsFull n out.1
  pub accounts : Accounts (λ q. others q + unless out.0 pte q + uses n out.1 q) out.2.pages
  pub found : out.0 ≡ true → find_pte n out.1 va ≡ some pte
  pub missed : out.0 ≡ false → find_pte n out.1 va ≡ none
  pub kept : (other : ℕ) → Parts n va other → find_pte n out.1 other ≡ find_pte n es other
  -- a page that was used before is used as often as before
  pub stable :
      (q : ℕ)
      → 0 < others q + one pte.page q + uses n es q
      → others q + unless out.0 pte q + uses n out.1 q ≡ others q + one pte.page q + uses n es q
  pub fresh :
      (q : ℕ)
      → others q + one pte.page q + uses n es q ≡ 0
      → others q + unless out.0 pte q + uses n out.1 q ≤ 1
  pub bytes : out.2.bytes ≡ content

-- A table below, found or made, in which the page was mapped.
module _ (n : ℕ) (others rest : ℕ → ℕ) (content : ℕ → ℕ → ℕ) (es : Entries (suc n)) (va : ℕ)
    (pte : Pte) (table : ℕ) (below : Entries n) (full : IsFull (suc n) es) where
  abbrev outside : ℕ → ℕ
  outside q = others q + one table q + rest q

  grown :
      (out : Bool × Entries n × Frames)
      → ((q : ℕ)
          → rest q + slot_uses (suc n) (get_or es (index (suc n) va) none) q ≡ uses (suc n) es q)
      → ((q : ℕ)
          → 0 < others q + one pte.page q + uses (suc n) es q
          → outside q + one pte.page q + uses n below q
            ≡ others q + one pte.page q + uses (suc n) es q)
      → ((q : ℕ)
          → others q + one pte.page q + uses (suc n) es q ≡ 0
          → outside q + one pte.page q + uses n below q ≤ 1)
      → ((other : ℕ)
          → index (suc n) other ≡ index (suc n) va
          → find_pte n below other ≡ find_pte (suc n) es other)
      → Mapped n outside content below va pte out
      → Mapped
          (suc n)
          others
          content
          es
          va
          pte
          (out.0, set es (index (suc n) va) (some (table, out.1)), out.2)
  grown out split before new same m = record {
    full = set-IsFull n es (index (suc n) va) table out.1 full m.full;
    accounts = Accounts-eq (λ q. omega (arith, sum q)) m.accounts;
    found = λ done. find_pte-set n es va va table out.1 full refl ∙ m.found done;
    missed = λ failed. find_pte-set n es va va table out.1 full refl ∙ m.missed failed;
    kept = λ other parts.
        find_pte-set_other n es va other table out.1 full parts
          (λ at further. m.kept other further ∙ same other at);
    stable = λ q l. omega (arith, sum q, before q l, m.stable q (omega (arith, before q l)));
    fresh = λ q z. elim (Bool-cases (outside q + one pte.page q + uses n below q == 0)) [
      | inl none_before ↦ omega (arith, sum q, m.fresh q (ground arith))
      | inr some_before ↦ omega (arith, sum q, new q z, m.stable q (ground arith))
    ];
    bytes = m.bytes;
  }
    where
      after : Entries (suc n)
      after = set es (index (suc n) va) (some (table, out.1))

      sum :
          (q : ℕ)
          → others q + unless out.0 pte q + uses (suc n) after q
            ≡ outside q + unless out.0 pte q + uses n out.1 q
      sum q = omega (
        arith,
        split q,
        uses-set (suc n) es (index (suc n) va) (some (table, out.1)) q
            (in_table (suc n) va es full),
      )

map_last :
    (others : ℕ → ℕ) (f : Frames) (es : Entries 0) (va : ℕ) (pte : Pte)
    → IsFull 0 es
    → find_pte 0 es va ≡ none
    → Accounts (λ q. others q + one pte.page q + uses 0 es q) f.pages
    → Mapped 0 others f.bytes es va pte (map_from 0 f es va pte)
unfolding map_from find_pte
map_last others f es va pte full e s = record {
  full = length-set es (index 0 va) (some pte) ∙ full;
  accounts = Accounts-eq (λ q. omega (arith, moved q)) s;
  found = λ done. get_or-set_self es (index 0 va) (some pte) none (in_table 0 va es full);
  missed = λ failed. absurd (true≢false failed);
  kept = λ other (k, l, d).
      get_or-set_ne es (index 0 va) (index 0 other) (some pte) none
        (λ same. d (last_index k va other (omega arith) (sym same)));
  stable = λ q l. omega (arith, moved q);
  fresh = λ q z. omega (arith, moved q);
  bytes = refl;
}
  where
    moved : (q : ℕ) → uses 0 (set es (index 0 va) (some pte)) q ≡ uses 0 es q + one pte.page q
    moved q = omega (
      arith,
      uses-set 0 es (index 0 va) (some pte) q (in_table 0 va es full),
      ap (λ o. slot_uses 0 o q) e,
    )

-- The uses in a table but for those of one entry.
abbrev beside : (n : ℕ) → Entries (suc n) → (va q : ℕ) → ℕ
beside n es va q = uses (suc n) (set es (index (suc n) va) none) q

module _ (n : ℕ) (others : ℕ → ℕ) (f : Frames) (es : Entries (suc n)) (va : ℕ) (pte : Pte)
    (full : IsFull (suc n) es) (e : find_pte (suc n) es va ≡ none)
    (s : Accounts (λ q. others q + one pte.page q + uses (suc n) es q) f.pages) where
  module _ (table : ℕ) (below : Entries n)
      (g : get_or es (index (suc n) va) none ≡ some (table, below)) where
    apart : (q : ℕ) → beside n es va q + one table q + uses n below q ≡ uses (suc n) es q
    apart q = omega (
      arith,
      uses-set (suc n) es (index (suc n) va) none q (in_table (suc n) va es full),
      ap (λ o. slot_uses (suc n) o q) g,
    )

    map_found :
        (out : Bool × Entries n × Frames)
        → Mapped n (λ q. others q + one table q + beside n es va q) f.bytes below va pte out
        → Mapped
            (suc n)
            others
            f.bytes
            es
            va
            pte
            (out.0, set es (index (suc n) va) (some (table, out.1)), out.2)
    map_found out m =
        grown n others (beside n es va) f.bytes es va pte table below full out
          (λ q. omega (arith, apart q, ap (λ o. slot_uses (suc n) o q) g))
          (λ q l. omega (arith, apart q)) (λ q z. omega (arith, apart q))
          (λ other same. sym (find_in_same n es va other table below same g)) m

    Accounts-found :
        Accounts
          (λ q. others q + one table q + beside n es va q + one pte.page q + uses n below q)
          f.pages
    Accounts-found = Accounts-eq (λ q. omega (arith, apart q)) s

  module _ (table : ℕ) (g : get_or es (index (suc n) va) none ≡ none)
      (unused : others table + one pte.page table + uses (suc n) es table ≡ 0) where
    one_at : (q : ℕ) → 0 < others q + one pte.page q + uses (suc n) es q → one table q ≡ 0
    one_at q l = one-unused (λ k. others k + one pte.page k + uses (suc n) es k) table q unused l

    map_made :
        (out : Bool × Entries n × Frames)
        → Mapped n
            (λ q. others q + one table q + uses (suc n) es q)
            f.bytes
            (no_entries n pte_entries)
            va
            pte
            out
        → Mapped
            (suc n)
            others
            f.bytes
            es
            va
            pte
            (out.0, set es (index (suc n) va) (some (table, out.1)), out.2)
    map_made out m =
        grown n others (uses (suc n) es) f.bytes es va pte table (no_entries n pte_entries) full out
          (λ q. omega (arith, ap (λ o. slot_uses (suc n) o q) g))
          (λ q l. omega (arith, uses-no_entries n pte_entries q, one_at q l))
          (λ q z. ground (arith, uses-no_entries n pte_entries q))
          (λ other same.
            find_pte-no_entries n other
            ∙ sym (find_out n es other (ap (λ k. get_or es k none) same ∙ g)))
          m

-- The steps of `get_or_create_table` and of `map_page` after it.
get_or_create_table-none :
    (n : ℕ) (f : Frames)
    → (alloc_pages f.pages (pos 0)).0 ≡ none
    → get_or_create_table n f none ≡ (none, (take_page f).1)
unfolding get_or_create_table
get_or_create_table-none n f e = rw (e, get_or_create_table)

get_or_create_table-some :
    (n addr : ℕ) (f : Frames)
    → (alloc_pages f.pages (pos 0)).0 ≡ some addr
    → get_or_create_table n f none ≡ (some (addr, no_entries n pte_entries), (take_page f).1)
unfolding get_or_create_table
get_or_create_table-some n addr f e = rw (e, get_or_create_table)

map_failed :
    (n : ℕ) (f f' : Frames) (es : Entries (suc n)) (va : ℕ) (pte : Pte)
    → get_or_create_table n f (get_or es (index (suc n) va) none) ≡ (none, f')
    → map_from (suc n) f es va pte ≡ (false, es, f')
unfolding map_from
map_failed n f f' es va pte e = rw (e, map_from) (ap (λ r. (false, es, r.1)) e)

map_below :
    (n : ℕ) (f f' : Frames) (es : Entries (suc n)) (va : ℕ) (pte : Pte) (table : ℕ)
    (below : Entries n)
    → get_or_create_table n f (get_or es (index (suc n) va) none) ≡ (some (table, below), f')
    → let out = map_from n f' below va pte in
      map_from (suc n) f es va pte ≡ (out.0, set es (index (suc n) va) (some (table, out.1)), out.2)
unfolding map_from
map_below n f f' es va pte table below e =
    let finish : Frames → Bool × Entries (suc n) × Frames = λ g.
      let out = map_from n g below va pte in
      (out.0, set es (index (suc n) va) (some (table, out.1)), out.2) in
    rw (e, map_from) (ap (λ r. finish r.1) e)

unmapped_Mapped :
    (n : ℕ) (others : ℕ → ℕ) (f f' : Frames) (es : Entries n) (va : ℕ) (pte : Pte)
    → IsFull n es
    → find_pte n es va ≡ none
    → Accounts (λ q. others q + one pte.page q + uses n es q) f'.pages
    → f'.bytes ≡ f.bytes
    → Mapped n others f.bytes es va pte (false, es, f')
unmapped_Mapped n others f f' es va pte full e s b = record {
  full = full;
  accounts = s;
  found = λ done. absurd (true≢false (sym done));
  missed = λ failed. e;
  kept = λ other parts. refl;
  stable = λ q l. refl;
  fresh = λ q z. omega arith;
  bytes = b;
}

-- Where the tables are full, nothing is mapped at `va` and the account counts the page once among
-- the uses, the new mapping is made, or fails with `va` still unmapped and the page still counted
-- as the caller's; every other address keeps its entry.
pub map_from-Mapped :
    (n : ℕ) (others : ℕ → ℕ) (f : Frames) (es : Entries n) (va : ℕ) (pte : Pte)
    → IsFull n es
    → find_pte n es va ≡ none
    → Accounts (λ q. others q + one pte.page q + uses n es q) f.pages
    → Mapped n others f.bytes es va pte (map_from n f es va pte)
unfolding map_from get_or_create_table
map_from-Mapped zero others f es va pte full e s = map_last others f es va pte full e s
map_from-Mapped (suc n) others f es va pte full e s =
    elim (Option-cases (get_or es (index (suc n) va) none)) [
      | inr ((table, below), g) ↦
          rw (map_below n f f es va pte table below (ap (get_or_create_table n f) g ∙ refl)) (
            map_found n others f es va pte full e s table below g (map_from n f below va pte) (
              map_from-Mapped n (λ q. others q + one table q + beside n es va q) f below va pte
                (full.1 (index (suc n) va) table below g) (sym (find_in n es va table below g) ∙ e)
                (Accounts-found n others f es va pte full e s table below g)))
      | inl g ↦ elim (alloc_pages-Taken s) [
        | inl (h, same) ↦
            rw
              (map_failed n f (take_page f).1 es va pte
                (ap (get_or_create_table n f) g ∙ get_or_create_table-none n f h))
              (unmapped_Mapped (suc n) others f (take_page f).1 es va pte full e (rw same s) refl)
        | inr (addr, h, unused, t) ↦
            rw
              (map_below n f (take_page f).1 es va pte addr (no_entries n pte_entries)
                (ap (get_or_create_table n f) g ∙ get_or_create_table-some n addr f h))
              (map_made n others f es va pte full e s addr g unused
                (map_from n (take_page f).1 (no_entries n pte_entries) va pte)
                (map_from-Mapped n (λ q. others q + one addr q + uses (suc n) es q) (take_page f).1
                  (no_entries n pte_entries) va pte (no_entries-IsFull n) (find_pte-no_entries n va)
                  (Accounts-eq (λ q. omega (arith, uses-no_entries n pte_entries q)) t)))
      ]
    ]
