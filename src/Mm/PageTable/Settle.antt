-- ===== src/Mm/PageTable/Settle.antt =====
-- The account of the uses after a page is got, put or freed.
use mini_os.Prelude.{
  ◌≢◌, ℕ, ◌+◌, ◌-◌, ◌%◌, ◌^◌, ◌<◌, ◌≡◌, inl, inr, refl, sym, ap, ◌∙◌, false, some, arith, ◌==◌,
  ==_iff, Bool-cases,
}
use mini_os.Prelude.Int.{pos}
use mini_os.Mm.PageAlloc.{
  PageAlloc, page_size, free_pages, put_page, get_page, virt_to_page, pfn_to_addr,
}
use mini_os.Mm.PageAlloc.Invariant.{Apart, InUse, IsValid}
use mini_os.Mm.PageAlloc.Free.{Freed}
use mini_os.Mm.PageAlloc.Reclaim.{counted, counted-IsValid, put_page-Freed, free_pages-Freed}
use mini_os.Mm.PageAlloc.Pool.{SamePool, put_page-SamePool, get_page-SamePool, free_pages-SamePool}
use mini_os.Mm.PageAlloc.Count.{free_total}
use mini_os.Mm.PageTable.Account.{
  Accounts, IsHeld, add_use, same-IsHeld, same-IsMapped, virt_to_page-IsHeld,
}

-- What a change at one used page must show: the account of that page is right, and the other pages
-- are where they were.
record Settles (u w : ℕ → ℕ) (q pfn : ℕ) (a b : PageAlloc) : Type 0 where
  same : SamePool a b
  valid : IsValid b
  kept : (k : ℕ) → InUse a k 0 → Apart k 0 pfn 0 → InUse b k 0
  counts : (k : ℕ) → k ≢ pfn → b.refcount k ≡ a.refcount k
  away : (r : ℕ) → (r == q) ≡ false → w r ≡ u r
  there : 0 < w q → InUse b pfn 0 × (b.refcount pfn ≡ w q)

-- Pages apart are different pages.
Apart-page : (p r : ℕ) → p ≢ r → Apart p 0 r 0
Apart-page p r n = ground arith

Settles-Accounts :
    {u w : ℕ → ℕ} {q : ℕ} {a b : PageAlloc} (s : Accounts u a) (h : IsHeld a q (u q))
    → Settles u w q h.pfn a b
    → Accounts w b
Settles-Accounts {u} {w} {q} {a} {b} s h c = record {
  valid = c.valid;
  mapped = same-IsMapped c.same s.mapped;
  aligned = ap (λ t. t % page_size) c.same.start ∙ s.aligned;
  held = λ r l. elim (Bool-cases (r == q)) [
    | inl here ↦ at r ((==_iff r q).0 here) l
    | inr off ↦ other r off l
  ];
}
  where
    at : (r : ℕ) → r ≡ q → 0 < w r → IsHeld b r (w r)
    at r e l =
        let at_q : w r ≡ w q = ap w e in
        let (mine, count) = c.there (omega arith) in
        rw at_q (rw e (same-IsHeld s c.same h (w q) mine count))

    other : (r : ℕ) → (r == q) ≡ false → 0 < w r → IsHeld b r (w r)
    other r off l =
        let k = s.held r (omega (arith, c.away r off)) in
        let apart : k.pfn ≢ h.pfn =
          λ e. ground (arith, k.address, h.address, ap (pfn_to_addr a) e) in
        same-IsHeld s c.same k (w r) (c.kept k.pfn k.mine (Apart-page k.pfn h.pfn apart))
          (c.counts k.pfn apart ∙ k.count ∙ sym (c.away r off))

module _ {u : ℕ → ℕ} {a : PageAlloc} (q : ℕ) where
  got :
      (h : IsHeld a q (u q))
      → IsValid a
      → u q + 1 < 2 ^ 32
      → Settles u (add_use u q) q h.pfn a (get_page a (some h.pfn))
  unfolding get_page
  got h v small = record {
    same = get_page-SamePool a (some h.pfn);
    valid = counted-IsValid h.pfn ((a.refcount h.pfn + 1) % 2 ^ 32) v;
    kept = λ k mine d. mine;
    counts = λ k n. ground arith;
    away = λ r off. ground arith;
    there = λ m. (h.mine, ground (arith, h.count));
  }

  pub get_page-Accounts :
      Accounts u a
      → 0 < u q
      → u q + 1 < 2 ^ 32
      → Accounts (add_use u q) (get_page a (virt_to_page a q))
  get_page-Accounts s l small =
      let h = s.held q l in
      rw (virt_to_page-IsHeld s q (u q) h) (Settles-Accounts s h (got h s.valid small))

  -- A page given back whose last use this was, and one that is used further on.
  let_go :
      (h : IsHeld a q (add_use u q q)) {b : PageAlloc}
      → SamePool a b
      → Freed (counted a h.pfn 0) h.pfn 0 b
      → u q ≡ 0
      → Settles (add_use u q) u q h.pfn a b
  let_go h same f last = record {
    same = same;
    valid = f.valid;
    kept = λ k mine d. f.others k 0 mine d;
    counts = λ k n. ground (arith, ap (λ c. c k) f.counts);
    away = λ r off. ground arith;
    there = λ l. absurd (omega arith);
  }

  dropped :
      (h : IsHeld a q (add_use u q q))
      → IsValid a
      → Settles (add_use u q) u q h.pfn a (counted a h.pfn (u q))
  dropped h v = record {
    same = record { start = refl; size = refl; order = refl; pages = refl };
    valid = counted-IsValid h.pfn (u q) v;
    kept = λ k mine d. mine;
    counts = λ k n. ground arith;
    away = λ r off. ground arith;
    there = λ m. (h.mine, ground arith);
  }

  put :
      (h : IsHeld a q (add_use u q q))
      → IsValid a
      → u q + 1 < 2 ^ 32
      → Settles (add_use u q) u q h.pfn a (put_page a (some h.pfn))
  put h v small =
      let same = put_page-SamePool a (some h.pfn) in
      let count : a.refcount h.pfn ≡ u q + 1 = ground (arith, h.count) in
      elim (put_page-Freed h.pfn v h.block h.mine (omega arith) (omega arith)) [
        | inl (l, e) ↦
            let left : a.refcount h.pfn - 1 ≡ u q = omega arith in rw (e, left) (dropped h v)
        | inr (l, f) ↦ let_go h same f (omega arith)
      ]

  pub put_page-Accounts :
      Accounts (add_use u q) a → u q + 1 < 2 ^ 32 → Accounts u (put_page a (virt_to_page a q))
  put_page-Accounts s small =
      let h = s.held q (ground arith) in
      rw (virt_to_page-IsHeld s q (add_use u q q) h) (Settles-Accounts s h (put h s.valid small))

  pub free_pages-Accounts : Accounts (add_use u q) a → u q ≡ 0 → Accounts u (free_pages a q (pos 0))
  free_pages-Accounts s last =
      let h = s.held q (ground arith) in
      let f =
        free_pages-Freed s.valid s.mapped h.pfn 0 h.block h.mine (ground (arith, h.count))
          (ground (arith, s.aligned)) in
      let freed : Freed (counted a h.pfn 0) h.pfn 0 (free_pages a q (pos 0)) = rw h.address f in
      Settles-Accounts s h (let_go h (free_pages-SamePool a q (pos 0)) freed last)

module _ (u : ℕ → ℕ) {a : PageAlloc} (q : ℕ) where
  -- Only a page whose last use this was comes back to the free ones.
  pub put_page-total :
      Accounts (add_use u q) a
      → 0 < u q
      → u q + 1 < 2 ^ 32
      → free_total (put_page a (virt_to_page a q)) ≡ free_total a
  put_page-total s l small =
      let h = s.held q (ground arith) in
      let count : a.refcount h.pfn ≡ u q + 1 = ground (arith, h.count) in
      rw (virt_to_page-IsHeld s q (add_use u q q) h)
        (elim (put_page-Freed h.pfn s.valid h.block h.mine (omega arith) (omega arith)) [
          | inl (more, e) ↦ ap free_total e
          | inr (last, f) ↦ absurd (omega arith)
        ])

  pub free_pages-total :
      Accounts (add_use u q) a → u q ≡ 0 → free_total (free_pages a q (pos 0)) ≡ free_total a + 1
  free_pages-total s last =
      let h = s.held q (ground arith) in
      let f =
        free_pages-Freed s.valid s.mapped h.pfn 0 h.block h.mine (ground (arith, h.count))
          (ground (arith, s.aligned)) in
      let freed : Freed (counted a h.pfn 0) h.pfn 0 (free_pages a q (pos 0)) = rw h.address f in
      freed.total
