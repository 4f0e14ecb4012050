-- ===== src/Kernel/Namex.antt =====
-- kernel/fs.c: the lookup of a path, `skipelem` and `namex`. A path is its bytes before the NUL. An inode is a
-- number; who refers to it and who has it locked are counted.
mod Names
mod Lookup
mod Tests
use operating_system_lab_pro.Prelude.{
  ℕ, zero, suc, ◌+◌, ◌-◌, Bool, true, false, not, ◌&&◌, List, [], ◌∷◌, ◌++◌, Option, none, some,
  ◌==◌, if◌then◌else◌, length, take,
}

abbrev pub dirsiz : ℕ
dirsiz = 14

-- '/'
abbrev pub slash : ℕ
slash = 47

-- `while(*path == '/') path++`
abbrev pub skip_slashes : List ℕ → List ℕ
skip_slashes [] = []
skip_slashes (c ∷ cs) = if c == slash then skip_slashes cs else c ∷ cs

-- `while(*path != '/' && *path != 0) path++`: what is passed, and what is left.
abbrev pub elem_of : List ℕ → List ℕ
elem_of [] = []
elem_of (c ∷ cs) = if c == slash then [] else c ∷ elem_of cs

abbrev pub after_elem : List ℕ → List ℕ
after_elem [] = []
after_elem (c ∷ cs) = if c == slash then c ∷ cs else after_elem cs

-- The path that is left, and the name.
unfoldable pub skipelem : List ℕ → Option (List ℕ × List ℕ)
skipelem path = elim (skip_slashes path) [
  | [] ↦ none
  | c ∷ cs ↦ some (skip_slashes (after_elem (c ∷ cs)), take dirsiz (elem_of (c ∷ cs)))
]

-- References to inodes, and locks on them.
pub record Inodes : Type 0 where
  pub refs : ℕ → ℕ
  pub locks : ℕ → ℕ

abbrev pub add : (ℕ → ℕ) → ℕ → ℕ → ℕ
add f i j = if j == i then f j + 1 else f j

abbrev pub sub : (ℕ → ℕ) → ℕ → ℕ → ℕ
sub f i j = if j == i then f j - 1 else f j

-- `iget` and `idup`
abbrev pub get_ref : ℕ → Inodes → Inodes
get_ref ip s = record s { refs = add s.refs ip }

abbrev pub ilock : ℕ → Inodes → Inodes
ilock ip s = record s { locks = add s.locks ip }

abbrev pub iunlock : ℕ → Inodes → Inodes
iunlock ip s = record s { locks = sub s.locks ip }

abbrev pub iput : ℕ → Inodes → Inodes
iput ip s = record s { refs = sub s.refs ip }

abbrev pub iunlockput : ℕ → Inodes → Inodes
iunlockput ip s = iput ip (iunlock ip s)

-- The type of an inode, and `dirlookup`, which gets a reference to what it finds.
module _ (is_dir : ℕ → Bool) (dirlookup : (ip : ℕ) (name : List ℕ) → Option ℕ) where
  -- The loop of `namex`, from `ip` on; what is in `name` at the end comes with the inode.
  unfoldable pub namex_from :
      (fuel : ℕ) (parent : Bool) (ip : ℕ) (path name : List ℕ)
      → Inodes
      → Option (ℕ × List ℕ) × Inodes
  unfolding skipelem
  namex_from zero parent ip path name s = (none, s)
  namex_from (suc fuel) parent ip path name s = elim (skipelem path) [
    | none ↦ if parent then (none, iput ip s) else (some (ip, name), s)
    | some (path', name') ↦
        let s1 = ilock ip s in
        let found : Option ℕ = dirlookup ip name' in
        let s2 : Inodes = elim found [ none ↦ s1 | some next ↦ get_ref next s1 ] in
        let rest : Option (ℕ × List ℕ) × Inodes = elim found [
          | none ↦ (none, iunlockput ip s2)
          | some next ↦ namex_from fuel parent next path' name' (iunlockput ip s2)
        ] in
        if not (is_dir ip)
        then (none, iunlockput ip s1)
        else if parent && (length path' == 0)
        then (some (ip, name'), iunlock ip s1)
        else rest
  ]

  -- `root` is the root of the file system, and `cwd` the directory of the process. Each round takes a byte or
  -- more off the path.
  unfoldable pub namex :
      (root cwd : ℕ) (path : List ℕ) (parent : Bool) (name : List ℕ)
      → Inodes
      → Option (ℕ × List ℕ) × Inodes
  unfolding namex_from
  namex root cwd path parent name s =
      let ip : ℕ = elim path [ [] ↦ cwd | c ∷ cs ↦ if c == slash then root else cwd ] in
      namex_from (length path + 1) parent ip path name (get_ref ip s)
