-- ===== src/Fs/Files/Inodes.antt =====
-- fs/inode.c: when an inode is given up.
use mini_os.Prelude.{
  ℕ, ◌≡◌, ◌⊎◌, true, not, ◌&&◌, some, ◌∷◌, refl, ap, arith, ◌==◌, Bool-cases, inl, inr,
}
use mini_os.Fs.Files.{Files, evicted, iget, inode_maybe_evict, drop_nlink, clear_nlink, iput}

pub data InodeCall : Type 0 where
  get put drop clear : InodeCall

abbrev pub after_inode_call : InodeCall → Files → ℕ → Files
after_inode_call get s i = iget s (some i)
after_inode_call put s i = iput s (some i)
after_inode_call drop s i = drop_nlink s (some i)
after_inode_call clear s i = clear_nlink s (some i)

-- Nothing is given up, or just this inode is, which has a destructor, no user, and no name if it is
-- persistent.
abbrev pub EvictedWell : (before after : Files) → ℕ → Type 0
EvictedWell before after i =
    let inode = after.inodes i in
    (after.events ≡ before.events)
    ⊎ ((after.events ≡ evicted i ∷ before.events)
        × (inode.i_count ≡ 0)
        × (inode.has_free ≡ true)
        × (inode.persistent ≡ true → inode.nlink ≡ 0))

inode_maybe_evict-EvictedWell :
    (before s : Files) (i : ℕ)
    → s.events ≡ before.events
    → EvictedWell before (inode_maybe_evict s i) i
unfolding inode_maybe_evict
inode_maybe_evict-EvictedWell before s i e = elim (Bool-cases (not ((s.inodes i).i_count == 0))) [
  | inl f ↦ rw f (inl e)
  | inr f ↦ elim (Bool-cases ((s.inodes i).persistent && not ((s.inodes i).nlink == 0))) [
    | inl g ↦ rw (f, g) (inl e)
    | inr g ↦ elim (Bool-cases (s.inodes i).has_free) [
      | inr h ↦ rw (f, g, h) (inl e)
      | inl h ↦
          rw (f, g, h)
            (inr (ap (λ events. evicted i ∷ events) e, ground arith, h, (λ p. ground arith)))
    ]
  ]
]

-- iget, iput, drop_nlink and clear_nlink give up no inode but the one they are called on, and that
-- one only if it has a destructor, nobody uses it, and it has no name left if it is persistent.
pub after_inode_call-EvictedWell :
    (call : InodeCall) (s : Files) (i : ℕ) → EvictedWell s (after_inode_call call s i) i
unfolding iget drop_nlink clear_nlink iput
after_inode_call-EvictedWell get s i = inl refl
after_inode_call-EvictedWell put s i = elim (Bool-cases ((s.inodes i).i_count == 0)) [
  | inl e ↦ rw e (inl refl)
  | inr e ↦ rw e (inode_maybe_evict-EvictedWell s _ i refl)
]
after_inode_call-EvictedWell drop s i = inode_maybe_evict-EvictedWell s _ i refl
after_inode_call-EvictedWell clear s i = inode_maybe_evict-EvictedWell s _ i refl
