-- ===== src/Fs/Pipe/Slice.antt =====
-- A run of places in the ring of fs/pipe.c, and the bytes that stand there.
use mini_os.Prelude.{ℕ, suc, ◌+◌, ◌≤◌, ◌<◌, ◌≡◌, List, [], ◌∷◌, ◌++◌, arith, update}
use mini_os.Prelude.Ring.{run, around, distance, run-snoc, run-update}
use mini_os.Fs.Pipe.{pipe_size, step}

-- The `n` bytes from place `i` on.
abbrev pub slice : ℕ → ℕ → (ℕ → ℕ) → List ℕ
slice n i f = run pipe_size n i f

-- A place past the end is one at the start.
abbrev pub wrap : ℕ → ℕ
wrap i = around pipe_size i

pub wrap-step : (i n : ℕ) → i < pipe_size → n < pipe_size → wrap (step i + n) ≡ wrap (i + suc n)
wrap-step i n h l = ground arith

pub slice-snoc :
    (n i : ℕ) (f : ℕ → ℕ)
    → i < pipe_size
    → n < pipe_size
    → slice (suc n) i f ≡ slice n i f ++ f (wrap (i + n)) ∷ []
slice-snoc n i f h l = run-snoc pipe_size n i f h l

pub slice-update :
    (n i h b : ℕ) (f : ℕ → ℕ)
    → i < pipe_size
    → h < pipe_size
    → n ≤ distance pipe_size i h
    → slice n i (update f h b) ≡ slice n i f
slice-update n i h b f l m g = run-update pipe_size n i h b f l m g
