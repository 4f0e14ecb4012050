-- ===== src/Kernel/Namex/Tests.antt =====
-- A root directory 1 with a directory "a", in which "b" is a file.
use operating_system_lab_pro.Prelude.{
  ℕ, ◌≡◌, refl, Bool, true, false, ◌||◌, ◌&&◌, List, [], ◌∷◌, Option, none, some, ◌==◌,
  if◌then◌else◌,
}
use operating_system_lab_pro.Kernel.Namex.{Inodes, skipelem, namex}
use operating_system_lab_pro.Kernel.Namex.Lookup.{Finds, namex-Finds}

abbrev is_dir : ℕ → Bool
is_dir ip = ip == 1 || ip == 2

abbrev is_name : ℕ → List ℕ → Bool
is_name c (d ∷ []) = c == d
is_name c [] = false
is_name c (d ∷ e ∷ rest) = false

abbrev dirlookup : (ip : ℕ) (name : List ℕ) → Option ℕ
dirlookup ip name =
    if ip == 1 && is_name 97 name
    then some 2
    else if ip == 2 && is_name 98 name
    then some 3
    else none

abbrev unused : Inodes
unused = record { refs = λ i. 0; locks = λ i. 0 }

-- "/a//b"
abbrev slash_a_b : List ℕ
slash_a_b = 47 ∷ 97 ∷ 47 ∷ 47 ∷ 98 ∷ []

-- The examples of the comment on `skipelem`: "///a//bb", "a" and "////".
skips_slashes : skipelem (47 ∷ 47 ∷ 47 ∷ 97 ∷ 47 ∷ 47 ∷ 98 ∷ 98 ∷ []) ≡ some (98 ∷ 98 ∷ [], 97 ∷ [])
unfolding skipelem
skips_slashes = refl

skips_all : skipelem (97 ∷ []) ≡ some ([], 97 ∷ [])
unfolding skipelem
skips_all = refl

only_slashes : skipelem (47 ∷ 47 ∷ 47 ∷ 47 ∷ []) ≡ none
unfolding skipelem
only_slashes = refl

finds_file : (namex is_dir dirlookup 1 7 slash_a_b false [] unused).0 ≡ some (3, 98 ∷ [])
unfolding namex
finds_file = refl

finds_parent : (namex is_dir dirlookup 1 7 slash_a_b true [] unused).0 ≡ some (2, 98 ∷ [])
unfolding namex
finds_parent = refl

namex-Finds_example :
    Finds is_dir dirlookup 1 7 false slash_a_b unused
      (namex is_dir dirlookup 1 7 slash_a_b false [] unused)
namex-Finds_example = namex-Finds is_dir dirlookup 1 7 slash_a_b false [] unused
