-- ===== src/Fs/Dcache/Tests.antt =====
-- Runs of the directory entries, and their theorem at a small tree.
use mini_os.Prelude.{ℕ, ◌≡◌, refl, Option, none, some, [], ◌∷◌, arith}
use mini_os.Fs.Namei.{Bytes, ok, path_max, str_copy}
use mini_os.Fs.Namei.Names.{IsName, path_of}
use mini_os.Fs.Dcache.{Dcache, d_find_child, d_lookup_path, dentry_path, d_move}
use mini_os.Fs.Dcache.Walk.{IsAt, d_lookup_path-dentry_path}

abbrev usr : Bytes
usr = b'u' ∷ b's' ∷ b'r' ∷ []

abbrev bin : Bytes
bin = b'b' ∷ b'i' ∷ b'n' ∷ []

-- Only the root, and two addresses to allocate.
abbrev bare : Dcache
bare = record {
  dentry = λ d. record { name = []; inode = some 100; parent = none; child = [] };
  heap = 1 ∷ 2 ∷ [];
}

-- A file system in which each directory has each name.
abbrev any_child : Option ℕ → Bytes → Option ℕ
any_child dir name = some 200

-- The walk to "/usr/bin" attaches both.
abbrev walked : Option ℕ × Dcache
walked = d_lookup_path any_child bare (path_of (bin ∷ usr ∷ []))

walked_there : walked.0 ≡ some 2
unfolding d_lookup_path str_copy
walked_there = refl

walked_path : dentry_path 3 walked.1 2 path_max ≡ ok (path_of (bin ∷ usr ∷ []))
unfolding d_lookup_path str_copy dentry_path
walked_path = refl

-- Moved to the root under its old name it has the shorter path.
moved_path : dentry_path 3 (d_move walked.1 2 0 bin) 2 path_max ≡ ok (path_of (bin ∷ []))
unfolding d_lookup_path str_copy dentry_path d_move
moved_path = refl

-- An allocation that fails ends the walk.
no_memory :
    (d_lookup_path any_child (record bare { heap = 1 ∷ [] }) (path_of (bin ∷ usr ∷ []))).0 ≡ none
unfolding d_lookup_path str_copy
no_memory = refl

walked-IsAt : IsAt walked.1 (bin ∷ usr ∷ []) 2
unfolding d_lookup_path str_copy d_find_child
walked-IsAt = (1, refl, refl, refl, (0, refl, refl, refl, (refl, refl)))

usr-IsName : IsName usr
usr-IsName = record { filled = λ e. cc (e); whole = refl; not_dot = refl; not_dot_dot = refl }

bin-IsName : IsName bin
bin-IsName = record { filled = λ e. cc (e); whole = refl; not_dot = refl; not_dot_dot = refl }

d_lookup_path-dentry_path_example :
    (dentry_path 3 walked.1 2 path_max ≡ ok (path_of (bin ∷ usr ∷ [])))
    × (d_lookup_path any_child walked.1 (path_of (bin ∷ usr ∷ [])) ≡ (some 2, walked.1))
d_lookup_path-dentry_path_example =
    d_lookup_path-dentry_path any_child 3 walked.1 (bin ∷ usr ∷ []) 2 (bin-IsName, (usr-IsName, tt))
      (omega arith) (omega arith) walked-IsAt
