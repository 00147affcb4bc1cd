-- ===== src/Fs/Pipe/Queue.antt =====
-- fs/pipe.c: a pipe as a queue of bytes.
use mini_os.Prelude.{
  ℕ, zero, suc, ◌+◌, ◌-◌, ◌≤◌, ◌<◌, ◌≡◌, ◌⊎◌, ◌∙◌, refl, sym, ap, Bool, true, false, List, [], ◌∷◌,
  ◌++◌, arith, ltb, ◌==◌, if◌then◌else◌, update, length, take, Bool-cases, inl, inr,
}
use mathlib.Core.Path.{subst}
use mathlib.Core.List.{append-nil, append_assoc}
use mini_os.Fs.Pipe.{
  Pipe, pipe_size, step, copy_out, copy_in, Transfer, got, wrote, held, pipe_read, pipe_write,
}
use mini_os.Fs.Pipe.Slice.{slice, wrap, slice-snoc, wrap-step, slice-update}

-- The bytes of the pipe, oldest first.
abbrev pub contents : Pipe → List ℕ
contents p = slice p.len p.tail p.buf

-- The indices are in the ring, and the head is behind the last byte.
pub record PipeValid (p : Pipe) : Type 0 where
  pub tail : p.tail < pipe_size
  pub len : p.len ≤ pipe_size
  pub head : p.head ≡ wrap (p.tail + p.len)

slice-split :
    (n m i : ℕ) (f : ℕ → ℕ)
    → i < pipe_size
    → n ≤ pipe_size
    → slice (n + m) i f ≡ slice n i f ++ slice m (wrap (i + n)) f
slice-split zero m i f l h =
    let whole : 0 + m ≡ m = omega arith in
    let here : i ≡ wrap (i + 0) = ground arith in
    ap (λ k. slice k i f) whole ∙ ap (λ j. slice m j f) here
slice-split (suc n) m i f l h =
    let more : suc n + m ≡ suc (n + m) = omega arith in
    ap (λ k. slice k i f) more
    ∙ ap (λ bs. f i ∷ bs)
        (slice-split n m (step i) f (ground arith) (omega arith)
          ∙ ap (λ j. slice n (step i) f ++ slice m j f) (wrap-step i n l h))

-- The loop of a read hands out the bytes at the tail and moves the tail past them.
copy_out_lem :
    (n : ℕ) (p : Pipe)
    → p.tail < pipe_size
    → n ≤ pipe_size
    → copy_out n p ≡ (slice n p.tail p.buf, record p { tail = wrap (p.tail + n) })
unfolding copy_out
copy_out_lem zero p h l =
    let here : p.tail ≡ wrap (p.tail + 0) = ground arith in
    ap {A = ℕ} {B = List ℕ × Pipe} (λ t. ([], record p { tail = t })) here
copy_out_lem (suc n) p h l =
    let moved : Pipe = record p { tail = step p.tail } in
    ap {A = List ℕ × Pipe} {B = List ℕ × Pipe} (λ r. (p.buf p.tail ∷ r.0, r.1))
      (copy_out_lem n moved (ground arith) (omega arith))
    ∙ ap {A = ℕ} {B = List ℕ × Pipe} (λ t. (slice (suc n) p.tail p.buf, record p { tail = t }))
        (wrap-step p.tail n h l)

-- What the loop of a write does to a pipe with `n` bytes.
record CopiedIn (p : Pipe) (n : ℕ) (bs : List ℕ) (p' : Pipe) : Type 0 where
  bytes : slice (n + length bs) p.tail p'.buf ≡ slice n p.tail p.buf ++ bs
  tail : p'.tail ≡ p.tail
  head : p'.head ≡ wrap (p.tail + (n + length bs))

copy_in-CopiedIn :
    (bs : List ℕ) (p : Pipe) (n : ℕ)
    → p.tail < pipe_size
    → p.head ≡ wrap (p.tail + n)
    → n + length bs ≤ pipe_size
    → CopiedIn p n bs (copy_in bs p)
unfolding copy_in
copy_in-CopiedIn [] p n l h s =
    let none_more : n + 0 ≡ n = omega arith in
    record {
      bytes = ap (λ k. slice k p.tail p.buf) none_more ∙ sym (append-nil (slice n p.tail p.buf));
      tail = refl;
      head = h ∙ ap (λ k. wrap (p.tail + k)) (sym none_more);
    }
copy_in-CopiedIn (b ∷ bs) p n l h s =
    let put : Pipe = record p { buf = update p.buf p.head b; head = step p.head } in
    let near : p.head < pipe_size = ground arith in
    let ahead : step p.head ≡ wrap (p.tail + suc n) = ground arith in
    let ih = copy_in-CopiedIn bs put (suc n) l ahead (omega arith) in
    let order : n + suc (length bs) ≡ suc n + length bs = omega arith in
    let at_head : put.buf (wrap (p.tail + n)) ≡ b = ground arith in
    let kept : slice n p.tail put.buf ≡ slice n p.tail p.buf =
      slice-update n p.tail p.head b p.buf l near (ground arith) in
    let one : slice (suc n) p.tail put.buf ≡ slice n p.tail p.buf ++ b ∷ [] =
      slice-snoc n p.tail put.buf l (omega arith)
      ∙ ap (λ c. slice n p.tail put.buf ++ c ∷ []) at_head
      ∙ ap (λ xs. xs ++ b ∷ []) kept in
    record {
      bytes =
          ap (λ k. slice k p.tail (copy_in bs put).buf) order
          ∙ ih.bytes
          ∙ ap (λ xs. xs ++ bs) one
          ∙ append_assoc (slice n p.tail p.buf) (b ∷ []) bs;
      tail = ih.tail;
      head = ih.head ∙ ap (λ k. wrap (p.tail + k)) (sym order);
    }

length-slice : (n i : ℕ) (f : ℕ → ℕ) → length (slice n i f) ≡ n
length-slice zero i f = refl
length-slice (suc n) i f = ap suc (length-slice n (step i) f)

length-take : (n : ℕ) (bs : List ℕ) → n ≤ length bs → length (take n bs) ≡ n
length-take zero bs h = refl
length-take (suc n) [] h = absurd (omega arith)
length-take (suc n) (b ∷ bs) h = ap suc (length-take n bs (omega arith))

-- A read of `n` bytes that are there.
taken_out :
    (p : Pipe) (n : ℕ)
    → PipeValid p
    → n ≤ p.len
    → let out = copy_out n p in
      let left : Pipe = record out.1 { len = p.len - n } in
      (out.0 ++ contents left ≡ contents p) × (length out.0 ≡ n) × PipeValid left
taken_out p n v h =
    let far : Pipe = record p { tail = wrap (p.tail + n); len = p.len - n } in
    let rest : n + (p.len - n) ≡ p.len = omega arith in
    let parts : slice n p.tail p.buf ++ contents far ≡ contents p =
      sym (slice-split n (p.len - n) p.tail p.buf v.tail (omega (arith, v.len)))
      ∙ ap (λ k. slice k p.tail p.buf) rest in
    let valid : PipeValid far = record {
      tail = ground (arith, v.tail, v.len);
      len = omega (arith, v.len);
      head = v.head ∙ ground (arith, v.tail, v.len);
    } in
    subst {A = List ℕ × Pipe}
      (λ r.
        (r.0 ++ contents (record r.1 { len = p.len - n }) ≡ contents p)
        × (length r.0 ≡ n)
        × PipeValid (record r.1 { len = p.len - n }))
      (sym (copy_out_lem n p v.tail (omega (arith, v.len))))
      (parts, length-slice n p.tail p.buf, valid)

-- A write of bytes for which there is room.
appended :
    (p : Pipe) (n : ℕ) (bs : List ℕ)
    → PipeValid p
    → length bs ≡ n
    → p.len + n ≤ pipe_size
    → let more : Pipe = record (copy_in bs p) { len = p.len + n } in
      (contents more ≡ contents p ++ bs) × PipeValid more
appended p n bs v e h =
    let put = copy_in-CopiedIn bs p p.len v.tail v.head (omega arith) in
    (
      ap (λ k. slice (p.len + k) (copy_in bs p).tail (copy_in bs p).buf) (sym e)
          ∙ ap (λ t. slice (p.len + length bs) t (copy_in bs p).buf) put.tail
          ∙ put.bytes,
      record {
        tail = omega (arith, put.tail, v.tail);
        len = h;
        head =
            put.head
            ∙ ap (λ k. wrap (p.tail + (p.len + k))) e
            ∙ ap (λ t. wrap (t + (p.len + n))) (sym put.tail);
      },
    )

same_pipe :
    (b : Bool) (x y : Transfer) (p : Pipe)
    → (if◌then◌else◌ {A = Transfer × Pipe} b (x, p) (y, p)).1 ≡ p
same_pipe true x y p = refl
same_pipe false x y p = refl

-- A pass of a read took the oldest bytes, as many as asked for or all of them; or it took none from an
-- empty pipe.
abbrev pub IsRead : Pipe → ℕ → Transfer × Pipe → Type 0
IsRead p count (t, p') =
    ((bytes : List ℕ) × (t ≡ got bytes)
      × (bytes ++ contents p' ≡ contents p)
      × (length bytes ≡ (if ltb p.len count then p.len else count))
      × PipeValid p')
    ⊎ ((p.len ≡ 0) × (p' ≡ p))

-- A pass of a read of a valid pipe takes the oldest bytes, as many as asked for or all that there
-- are, leaves the others in their order, and keeps the pipe valid; or, where the pipe is empty,
-- leaves it as it is.
pub pipe_read-IsRead :
    {p : Pipe} (nonblock pending : Bool) (count : ℕ)
    → PipeValid p
    → IsRead p count (pipe_read p nonblock pending count)
unfolding pipe_read
pipe_read-IsRead {p} nonblock pending count v =
    let n = if ltb p.len count then p.len else count in
    let fits : n ≤ p.len = ground arith in
    let (parts, size, valid) = taken_out p n v fits in
    elim (Bool-cases (p.len == 0)) [
      | inl e ↦
          rw e (inr (ground arith, same_pipe (p.writers == 0) (got []) (held nonblock pending) p))
      | inr e ↦ rw e (inl ((copy_out n p).0, refl, parts, size, valid))
    ]

-- A pass of a write appended the first bytes, as many as fit; or it put none into a full pipe or one
-- that nobody reads.
abbrev pub IsWrite : Pipe → List ℕ → Transfer × Pipe → Type 0
IsWrite p bytes (t, p') =
    ((n : ℕ) × (t ≡ wrote n)
      × (n ≡ (if ltb (pipe_size - p.len) (length bytes) then pipe_size - p.len else length bytes))
      × (contents p' ≡ contents p ++ take n bytes)
      × PipeValid p')
    ⊎ (((p.readers ≡ 0) ⊎ (p.len ≡ pipe_size)) × (p' ≡ p))

-- A pass of a write to a valid pipe appends the first of the bytes given to the bytes of the pipe,
-- as many as there is room for, says how many, and keeps the pipe valid; or, where the pipe is full
-- or nobody reads it, leaves it as it is.
pub pipe_write-IsWrite :
    {p : Pipe} (nonblock pending : Bool) (bytes : List ℕ)
    → PipeValid p
    → IsWrite p bytes (pipe_write p nonblock pending bytes)
unfolding pipe_write
pipe_write-IsWrite {p} nonblock pending bytes v =
    let n = if ltb (pipe_size - p.len) (length bytes) then pipe_size - p.len else length bytes in
    let fits : p.len + n ≤ pipe_size = ground (arith, v.len) in
    let short : n ≤ length bytes = ground arith in
    let same : length (take n bytes) ≡ n = length-take n bytes short in
    let (more, valid) = appended p n (take n bytes) v same fits in
    elim (Bool-cases (p.readers == 0)) [
      | inl e ↦ rw e (inr (inl (ground arith), refl))
      | inr e ↦ elim (Bool-cases (p.len == pipe_size)) [
        | inl f ↦ rw (e, f) (inr (inr (ground arith), refl))
        | inr f ↦ rw (e, f) (inl (n, refl, refl, more, valid))
      ]
    ]
