-- ===== src/Mm/PageTable/Account.antt =====
-- The page allocator as the page tables use it: each page is counted once for each use, and the
-- calls of mm/page_alloc.c on single pages change that account by one use.
use mini_os.Prelude.{
  ◌≢◌, ℕ, suc, ◌+◌, ◌*◌, ◌%◌, ◌<◌, ◌≡◌, ◌⊎◌, inl, inr, refl, sym, ap, ◌∙◌, true, false, Option,
  none, some, arith, ◌==◌, ==_iff, if◌then◌else◌, Bool-cases,
}
use mathlib.Core.Option.{some-ne-none}
use mini_os.Prelude.Int.{pos}
use mini_os.Mm.PageAlloc.Count.{free_total, count-bare}
use mini_os.Mm.PageAlloc.{
  PageAlloc, word, page_size, alloc_pages, virt_to_page, pfn_to_addr, pfn_in_pool,
}
use mini_os.Mm.PageAlloc.Invariant.{IsBlock, InUse, IsValid}
use mini_os.Mm.PageAlloc.Alloc.{Allocated, alloc_pages-Outcome}
use mini_os.Mm.PageAlloc.Reclaim.{
  IsMapped, addr_to_pfn-pfn_to_addr, pfn_to_addr_lem, addr_in_pool_lem,
}
use mini_os.Mm.PageAlloc.Pool.{SamePool, alloc_pages-SamePool}

-- The page at address `q` is a page of the pool, in use, and counted `n` times.
pub record IsHeld (a : PageAlloc) (q n : ℕ) : Type 0 where
  pub pfn : ℕ
  pub address : q ≡ pfn_to_addr a pfn
  pub block : IsBlock a pfn 0
  pub mine : InUse a pfn 0
  pub count : a.refcount pfn ≡ n

-- The allocator is in order, and counts each page that is used as often as it is used.
pub record Accounts (uses : ℕ → ℕ) (a : PageAlloc) : Type 0 where
  pub valid : IsValid a
  pub mapped : IsMapped a
  pub aligned : a.mem_start % page_size ≡ 0
  pub held : (q : ℕ) → 0 < uses q → IsHeld a q (uses q)

-- One use of the page at `p`.
abbrev pub one : ℕ → ℕ → ℕ
one p q = if q == p then 1 else 0

-- One use more of the page at `p`.
abbrev pub add_use : (ℕ → ℕ) → ℕ → ℕ → ℕ
add_use uses p q = uses q + one p q

pub Accounts-eq :
    {u w : ℕ → ℕ} {a : PageAlloc} → ((q : ℕ) → w q ≡ u q) → Accounts u a → Accounts w a
Accounts-eq {u} {w} {a} same s = record {
  valid = s.valid;
  mapped = s.mapped;
  aligned = s.aligned;
  held = λ q l. rw (same q) (s.held q (omega (arith, same q)));
}

pub same-IsMapped : {a b : PageAlloc} → SamePool a b → IsMapped a → IsMapped b
same-IsMapped s m = record {
  size = ground (arith, s.size, s.pages, m.size);
  start = ground (arith, s.start, m.start);
  end = ground (arith, s.start, s.size, m.end);
}

same-pfn_to_addr : {a b : PageAlloc} → SamePool a b → (p : ℕ) → pfn_to_addr b p ≡ pfn_to_addr a p
unfolding pfn_to_addr
same-pfn_to_addr s p = ap (λ start. (start + p * page_size) % word) s.start

same-IsBlock : {a b : PageAlloc} → SamePool a b → (p k : ℕ) → IsBlock a p k → IsBlock b p k
same-IsBlock s p k block = record {
  order = ground (arith, s.order, block.order);
  index = block.index;
  aligned = block.aligned;
  inside = ground (arith, s.pages, block.inside);
}

page_addr_injective :
    {a : PageAlloc}
    → IsMapped a
    → (p r : ℕ) → IsBlock a p 0
    → IsBlock a r 0
    → pfn_to_addr a p ≡ pfn_to_addr a r
    → p ≡ r
page_addr_injective m p r b c e = omega (arith, pfn_to_addr_lem m p 0 b, pfn_to_addr_lem m r 0 c)

module _ {u : ℕ → ℕ} {a : PageAlloc} (s : Accounts u a) where
  -- `virt_to_page` finds the page that is used.
  pub virt_to_page-IsHeld : (q n : ℕ) (h : IsHeld a q n) → virt_to_page a q ≡ some h.pfn
  unfolding virt_to_page pfn_in_pool
  virt_to_page-IsHeld q n h = rw h.address (
      rw
        (
          addr_to_pfn-pfn_to_addr s.mapped h.pfn 0 h.block,
          addr_in_pool_lem s.mapped h.pfn 0 h.block,
        )
        (ground (
          arith,
          s.aligned,
          pfn_to_addr_lem s.mapped h.pfn 0 h.block,
          s.mapped.start,
          h.block.inside,
        )))

  pub same-IsHeld :
      {b : PageAlloc} {q n : ℕ} (same : SamePool a b) (h : IsHeld a q n) (m : ℕ)
      → InUse b h.pfn 0
      → b.refcount h.pfn ≡ m
      → IsHeld b q m
  same-IsHeld same h m mine count = record {
    pfn = h.pfn;
    address = h.address ∙ sym (same-pfn_to_addr same h.pfn);
    block = same-IsBlock same h.pfn 0 h.block;
    mine = mine;
    count = count;
  }

  -- What is used is another page than one that was just handed out.
  module _ {b : PageAlloc} (same : SamePool a b) (p : ℕ) (g : Allocated a p 0 b) where
    block_before : IsBlock a p 0
    block_before = record {
      order = ground (arith, same.order, g.block.order);
      index = g.block.index;
      aligned = g.block.aligned;
      inside = ground (arith, same.pages, g.block.inside);
    }

    other_page : (q : ℕ) → 0 < u q → q ≢ pfn_to_addr a p
    other_page q l e =
        let h = s.held q l in
        let (d, mine) = g.others h.pfn 0 h.mine in
        omega
          (arith, d, page_addr_injective s.mapped h.pfn p h.block block_before (sym h.address ∙ e))

    pub taken_fresh : u (pfn_to_addr a p) ≡ 0
    taken_fresh = elim (Bool-cases (u (pfn_to_addr a p) == 0)) [
      | inl e ↦ ground arith
      | inr e ↦ absurd (other_page (pfn_to_addr a p) (ground arith) refl)
    ]

    taken_here : (q : ℕ) → (q == pfn_to_addr a p) ≡ true → IsHeld b q (u q + 1)
    taken_here q e =
        let at : q ≡ pfn_to_addr a p = (==_iff q (pfn_to_addr a p)).0 e in
        let zero_before : u q ≡ 0 = ap u at ∙ taken_fresh in
        record {
          pfn = p;
          address = at ∙ sym (same-pfn_to_addr same p);
          block = g.block;
          mine = g.mine;
          count = ground (arith, g.counts p, zero_before);
        }

    taken_off : (q : ℕ) → (q == pfn_to_addr a p) ≡ false → 0 < u q → IsHeld b q (u q)
    taken_off q e l =
        let h = s.held q l in
        let (d, mine) = g.others h.pfn 0 h.mine in
        same-IsHeld same h (u q) mine (ground (arith, g.counts h.pfn, h.count, d))

    pub taken-Accounts : Accounts (add_use u (pfn_to_addr a p)) b
    taken-Accounts = record {
      valid = g.valid;
      mapped = same-IsMapped same s.mapped;
      aligned = ap (λ t. t % page_size) same.start ∙ s.aligned;
      held = λ q l. elim (Bool-cases (q == pfn_to_addr a p)) [
        | inl here ↦ rw here (taken_here q here)
        | inr off ↦
            let none_more : u q + 0 ≡ u q = omega arith in
            rw (off, none_more) (taken_off q off (ground arith))
      ];
    }

-- What a request for a page answers: nothing, and nothing is changed; or a page that was not used.
abbrev pub Taken : (ℕ → ℕ) → PageAlloc → Option ℕ × PageAlloc → Type 0
Taken u a (page, b) =
    ((page ≡ none) × (b ≡ a))
    ⊎ ((addr : ℕ) × (page ≡ some addr) × (u addr ≡ 0) × Accounts (add_use u addr) b)

pub alloc_pages-Taken :
    {u : ℕ → ℕ} {a : PageAlloc} → Accounts u a → Taken u a (alloc_pages a (pos 0))
alloc_pages-Taken {u} {a} s = elim (alloc_pages-Outcome a 0 s.valid) [
  | inr (e, bare) ↦ inl (ap (λ r. r.0) e, ap (λ r. r.1) e)
  | inl (p, e, g) ↦ inr (
    pfn_to_addr a p,
    e,
    taken_fresh s (alloc_pages-SamePool a (pos 0)) p g,
    taken-Accounts s (alloc_pages-SamePool a (pos 0)) p g,
  )
]

-- A page that is given is one free page less.
pub alloc_pages-total :
    {a : PageAlloc}
    → IsValid a
    → (addr : ℕ) → (alloc_pages a (pos 0)).0 ≡ some addr
    → free_total (alloc_pages a (pos 0)).1 + 1 ≡ free_total a
alloc_pages-total {a} v addr e = elim (alloc_pages-Outcome a 0 v) [
  | inr (none_left, bare) ↦ absurd (some-ne-none addr (sym e ∙ ap (λ r. r.0) none_left))
  | inl (p, given, g) ↦ g.total
]

-- A page is refused only where none is free.
pub alloc_pages-refused :
    {a : PageAlloc} → IsValid a → (alloc_pages a (pos 0)).0 ≡ none → free_total a ≡ 0
alloc_pages-refused {a} v e = elim (alloc_pages-Outcome a 0 v) [
  | inr (refused, bare) ↦
      count-bare (suc a.max_order) a.free_area (λ j l. bare j (omega arith) (omega arith))
  | inl (p, given, g) ↦ absurd (some-ne-none (pfn_to_addr a p) (sym given ∙ e))
]

-- A page that is used is another one than a page that is not.
pub one-unused : (u : ℕ → ℕ) (p q : ℕ) → u p ≡ 0 → 0 < u q → one p q ≡ 0
one-unused u p q unused l = elim (Bool-cases (q == p)) [
  | inr e ↦ rw e
  | inl e ↦ absurd (omega (arith, unused, ap u ((==_iff q p).0 e)))
]

pub one_self : (p : ℕ) → one p p ≡ 1
one_self p = ground arith
