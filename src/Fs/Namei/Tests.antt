-- ===== src/Fs/Namei/Tests.antt =====
-- Runs of the path functions, and their theorems at concrete paths.
use mini_os.Prelude.{ℕ, zero, suc, ◌≡◌, refl, [], ◌∷◌, arith}
use mini_os.Kernel.Task.{enametoolong}
use mini_os.Fs.Namei.{
  Bytes, ok, err, path_resolve, path_parent_name, str_copy, resolve_from, pop_component,
  push_component,
}
use mini_os.Fs.Namei.Names.{IsName, path_of}
use mini_os.Fs.Namei.Resolve.{Answer, from, bytes_of, path_resolve-Answer, path_resolve-path_of}
use mini_os.Fs.Namei.Parent.{path_parent_name-path_of}

abbrev usr : Bytes
usr = b'u' ∷ b's' ∷ b'r' ∷ []

abbrev bin : Bytes
bin = b'b' ∷ b'i' ∷ b'n' ∷ []

usr-IsName : IsName usr
usr-IsName = record { filled = λ e. cc (e); whole = refl; not_dot = refl; not_dot_dot = refl }

bin-IsName : IsName bin
bin-IsName = record { filled = λ e. cc (e); whole = refl; not_dot = refl; not_dot_dot = refl }

-- "..//bin/."
abbrev up_to_bin : Bytes
up_to_bin = b'.' ∷ b'.' ∷ b'/' ∷ b'/' ∷ b'b' ∷ b'i' ∷ b'n' ∷ b'/' ∷ b'.' ∷ []

from_usr_to_bin : path_resolve (path_of (usr ∷ [])) up_to_bin ≡ ok (b'/' ∷ bin)
unfolding path_resolve str_copy resolve_from pop_component push_component
from_usr_to_bin = refl

-- `count` times the letter a
abbrev letters : ℕ → Bytes
letters zero = []
letters (suc count) = b'a' ∷ letters count

-- A name of 254 bytes is refused from "/" and taken behind a slash, though both mean one path.
long_from_root : path_resolve (b'/' ∷ []) (letters 254) ≡ err enametoolong
unfolding path_resolve str_copy resolve_from pop_component push_component
long_from_root = refl

long_absolute : path_resolve (b'/' ∷ []) (b'/' ∷ letters 254) ≡ ok (b'/' ∷ letters 254)
unfolding path_resolve str_copy resolve_from pop_component push_component
long_absolute = refl

path_resolve-Answer_example :
    Answer
      (from up_to_bin (usr ∷ []))
      up_to_bin
      (bytes_of up_to_bin (usr ∷ []))
      (path_resolve (path_of (usr ∷ [])) up_to_bin)
path_resolve-Answer_example =
    path_resolve-Answer (usr ∷ []) up_to_bin (usr-IsName, tt) (omega arith) (λ e. cc (e))

path_resolve-path_of_example :
    path_resolve (path_of (usr ∷ [])) (path_of (bin ∷ usr ∷ [])) ≡ ok (path_of (bin ∷ usr ∷ []))
path_resolve-path_of_example =
    path_resolve-path_of (usr ∷ []) (bin ∷ usr ∷ []) (usr-IsName, tt) (bin-IsName, (usr-IsName, tt))
      (omega arith) (omega arith)

path_parent_name-path_of_example :
    path_parent_name (path_of (bin ∷ usr ∷ [])) ≡ ok (path_of (usr ∷ []), bin)
path_parent_name-path_of_example =
    path_parent_name-path_of bin (usr ∷ []) bin-IsName (usr-IsName, tt) (omega arith)
