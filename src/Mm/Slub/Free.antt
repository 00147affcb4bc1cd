-- ===== src/Mm/Slub/Free.antt =====
-- `kmem_cache_free` of mm/slub.c.
use mini_os.Prelude.{
  ℕ, ◌+◌, ◌-◌, ◌<◌, ◌≡◌, ◌∙◌, Bool, true, false, not, ◌&&◌, ◌||◌, none, some, List, [], ◌∷◌, refl,
  ap, sym, arith, ◌==◌, has, distinct, length, Bool-cases, Option-cases, inl, inr, has-without_ne,
  has-without_self, distinct-without,
}
use mathlib.Core.Path.{subst}
use mathlib.Core.Bool.{true≢false}
use mathlib.Core.Option.{some-injective, some-ne-none}
use mini_os.Mm.Slub.{
  Slab, KmemCache, slab_object_offset, slab_objects_per_page, slab_from_object, slab_destroy,
  put_object, kmem_cache_free,
}
use mini_os.Mm.Slub.Outside.{outside, outside-nil, outside-zero, outside-lt}
use mini_os.Mm.Slub.Slots.{slots, length-carve}
use mini_os.Mm.Slub.Objects.{
  is_nil, SlabShape, CacheValid, out_of, allocated, pushed-SlabShape, Touches, touched-CacheValid,
  allocated_elsewhere, allocated_here,
}

-- The object is no longer handed out, and no other changes hands.
pub record IsFree (c : KmemCache) (o : ℕ) (c' : KmemCache) : Type 0 where
  pub valid : CacheValid c'
  pub now : (x : ℕ) → allocated c' x ≡ (not (x == o) && allocated c x)

module _ {c : KmemCache} (o : ℕ) (s : Slab) (v : CacheValid c)
    (at : c.slab (slab_from_object o) ≡ some s) where
  abbrev p : ℕ
  p = slab_from_object o

  after : Slab
  after = record s { freelist = o ∷ s.freelist; inuse = s.inuse - 1 }

  -- What is handed out of the page before.
  before :
      (x : ℕ)
      → (slab_from_object x == p) ≡ true
      → allocated c x ≡ (has x (slots c.object_size p) && not (has x s.freelist))
  before x f = allocated_here c p x c.object_size f refl at

  -- Another page holds other objects.
  apart : (x : ℕ) → (slab_from_object x == p) ≡ false → (x == o) ≡ false
  apart x f = elim (Bool-cases (x == o)) [
    | inr g ↦ g
    | inl g ↦
        let same : o ≡ x = ground arith in
        let self : (slab_from_object o == slab_from_object o) ≡ true = ground arith in
        absurd (true≢false (sym self ∙ ap (λ y. slab_from_object y == p) same ∙ f))
  ]

  -- The slab stays, and its place in the chain is right.
  kept :
      {c' : KmemCache}
      → SlabShape c.object_size p after
      → 0 < s.inuse - 1
      → Touches c c' p
      → c'.slab p ≡ some after
      → has p c'.partial ≡ true
      → distinct c'.partial ≡ true
      → IsFree c o c'
  unfolding after
  kept {c'} shape some_out t slot listed once = record {
    valid = touched-CacheValid p v t (record {
      slab = λ s' e'.
          let same : after ≡ s' = some-injective after s' (sym slot ∙ e') in
          subst
            (λ r.
              SlabShape c'.object_size p r
              × (0 < r.inuse)
              × (has p c'.partial ≡ not (is_nil r.freelist)))
            same (subst (λ n. SlabShape n p after) (sym t.size) shape, some_out, listed);
      gone = λ e'. absurd (some-ne-none after (sym slot ∙ e'));
      once = once;
    });
    now = λ x. elim (Bool-cases (slab_from_object x == p)) [
      | inr f ↦ allocated_elsewhere x t f ∙ rw (apart x f) refl
      | inl f ↦
          allocated_here c' p x c.object_size f t.size slot
          ∙ split (x == o) (has x (slots c.object_size p)) (has x s.freelist)
          ∙ ap (λ b. not (x == o) && b) (sym (before x f))
    ];
  }
    where
      split : (a b d : Bool) → (b && not (a || d)) ≡ (not a && (b && not d))
      split a b d = ground arith

  -- The slab goes, since nothing else of it was handed out.
  destroyed :
      {c' : KmemCache}
      → outside (slots c.object_size p) (o ∷ s.freelist) ≡ 0
      → Touches c c' p
      → c'.slab p ≡ none
      → has p c'.partial ≡ false
      → distinct c'.partial ≡ true
      → IsFree c o c'
  destroyed {c'} all_back t slot unlisted once = record {
    valid = touched-CacheValid p v t (record {
      slab = λ s' e'. absurd (some-ne-none s' (sym e' ∙ slot));
      gone = λ e'. unlisted;
      once = once;
    });
    now = λ x. elim (Bool-cases (slab_from_object x == p)) [
      | inr f ↦ allocated_elsewhere x t f ∙ rw (apart x f) refl
      | inl f ↦
          allocated_here c' p x c.object_size f t.size slot
          ∙ back x
          ∙ ap (λ b. not (x == o) && b) (sym (before x f))
    ];
  }
    where
      back :
          (x : ℕ)
          → false ≡ (not (x == o) && (has x (slots c.object_size p) && not (has x s.freelist)))
      back x = elim (Bool-cases (has x (slots c.object_size p))) [
        | inr g ↦ rw g (ground arith)
        | inl g ↦
            let in_list : has x (o ∷ s.freelist) ≡ true =
              outside-zero (slots c.object_size p) (o ∷ s.freelist) x all_back g in
            ground arith
      ]

  -- No object was free exactly if all were handed out.
  full_iff : is_nil s.freelist ≡ (s.inuse == s.objects)
  full_iff = by_list s.freelist (v.shape p s at).counts (v.shape p s at).within
    where
      many : length (slots c.object_size p) ≡ s.objects
      many =
          length-carve (p + slab_object_offset c.object_size) c.object_size
            (slab_objects_per_page c.object_size)
          ∙ sym (v.shape p s at).objects

      by_list :
          (fs : List ℕ)
          → s.inuse ≡ outside (slots c.object_size p) fs
          → ((x : ℕ) → has x fs ≡ true → has x (slots c.object_size p) ≡ true)
          → is_nil fs ≡ (s.inuse == s.objects)
      by_list [] n w =
          let all_out : s.inuse ≡ s.objects = n ∙ outside-nil (slots c.object_size p) ∙ many in
          ground arith
      by_list (f ∷ fs) n w =
          let self : has f (f ∷ fs) ≡ true = ground arith in
          let fewer : s.inuse < s.objects =
            omega (arith, n, many, outside-lt (slots c.object_size p) (f ∷ fs) f (w f self) self) in
          ground arith

  freed :
      has o (slots c.object_size p) ≡ true
      → has o s.freelist ≡ false
      → IsFree c o (put_object c o s)
  unfolding put_object slab_destroy after
  freed i n =
      let shape = pushed-SlabShape o v.size i n (v.shape p s at) in
      elim (Bool-cases (s.inuse - 1 == 0)) [
        | inl e ↦ rw e (
            destroyed (ground (arith, shape.counts))
              (record {
                size = refl;
                slabs = λ q f. rw f refl;
                partials = λ q f. has-without_ne p q c.partial f;
              })
              (rw same refl) (has-without_self p c.partial v.once)
              (distinct-without p c.partial v.once))
        | inr e ↦ elim (Bool-cases (s.inuse - 1 == s.objects - 1)) [
          | inl f ↦
              rw (e, f)
                (kept shape (ground arith)
                  (record { size = refl; slabs = λ q g. rw g refl; partials = λ q g. rw g refl })
                  (rw same refl) (rw same refl) (joined (ground arith)))
          | inr f ↦
              rw (e, f)
                (kept shape (ground arith)
                  (record { size = refl; slabs = λ q g. rw g refl; partials = λ q g. refl })
                  (rw same refl) (in_chain (ground arith)) v.once)
        ]
      ]
    where
      same : (p == p) ≡ true
      same = ground arith

      in_chain : (s.inuse == s.objects) ≡ false → has p c.partial ≡ true
      in_chain f = v.listed p s at ∙ ap not (full_iff ∙ f)

      joined : (s.inuse == s.objects) ≡ true → distinct (p ∷ c.partial) ≡ true
      joined f =
          let unlisted : has p c.partial ≡ false = v.listed p s at ∙ ap not (full_iff ∙ f) in
          rw (unlisted, v.once) refl

-- In a valid cache, freeing an object that is handed out leaves the cache valid, takes exactly this
-- object back, and changes nothing for any other object, also where its slab is given back to the
-- page allocator.
pub kmem_cache_free-IsFree :
    (c : KmemCache) (o : ℕ) → CacheValid c → allocated c o ≡ true → IsFree c o (kmem_cache_free c o)
unfolding kmem_cache_free
kmem_cache_free-IsFree c o v a = elim (Option-cases (c.slab (slab_from_object o))) [
  | inl e ↦ absurd (true≢false (sym a ∙ ap (out_of c.object_size (slab_from_object o) o) e))
  | inr (s, e) ↦
      let out : (has o (slots c.object_size (slab_from_object o)) && not (has o s.freelist))
          ≡ true =
        sym (ap (out_of c.object_size (slab_from_object o) o) e) ∙ a in
      rw (kmem_cache_free, e) (freed o s v e (both out).0 (both out).1)
]
  where
    both : {b d : Bool} → (b && not d) ≡ true → (b ≡ true) × (d ≡ false)
    both e = (ground arith, ground arith)
