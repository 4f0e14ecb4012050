-- ===== src/Kernel/Namex/Lookup.antt =====
-- `namex` looks the names of the path up one after the other, and gives back what it takes.
use operating_system_lab_pro.Prelude.{
  ℕ, zero, suc, ◌+◌, ◌<◌, ◌≤◌, ◌≡◌, ◌≢◌, refl, sym, ap, ◌∙◌, Bool, true, false, ◌&&◌, List, [], ◌∷◌,
  Option, none, some, ◌==◌, if◌then◌else◌, length, arith, List-cases, Option-cases, Bool-cases, inl,
  inr,
}
use mathlib.Core.Path.{subst}
use operating_system_lab_pro.Kernel.Namex.{
  slash, skip_slashes, Inodes, get_ref, ilock, iunlock, iput, iunlockput, namex_from, namex,
}
use operating_system_lab_pro.Kernel.Namex.Names.{names, skipelem-nil, Split, skipelem-Split}

module _ (is_dir : ℕ → Bool) (dirlookup : (ip : ℕ) (name : List ℕ) → Option ℕ) where
  -- The inode that a list of names leads to, and the last directory on the way with the last name.
  abbrev pub resolve : (ip : ℕ) → List (List ℕ) → Option ℕ
  resolve ip [] = some ip
  resolve ip (n ∷ ns) =
      if is_dir ip
      then elim (dirlookup ip n) [ none ↦ none | some next ↦ resolve next ns ]
      else none

  abbrev pub resolve_parent : (ip : ℕ) → List (List ℕ) → Option (ℕ × List ℕ)
  resolve_parent ip [] = none
  resolve_parent ip (n ∷ []) = if is_dir ip then some (ip, n) else none
  resolve_parent ip (n ∷ m ∷ ns) =
      if is_dir ip
      then elim (dirlookup ip n) [ none ↦ none | some next ↦ resolve_parent next (m ∷ ns) ]
      else none

  abbrev pub inode : Option (ℕ × List ℕ) → Option ℕ
  inode none = none
  inode (some (ip, name)) = some ip

  -- 1 for the inode that is returned.
  abbrev pub returned : Option (ℕ × List ℕ) → ℕ → ℕ
  returned none i = 0
  returned (some (ip, name)) i = if i == ip then 1 else 0

  -- The right inode, no lock, and one reference less on `ip`, one more on what is returned.
  pub record Resolves (parent : Bool) (ip : ℕ) (path : List ℕ) (s : Inodes)
      (result : Option (ℕ × List ℕ) × Inodes) : Type 0 where
    pub whole : parent ≡ false → inode result.0 ≡ resolve ip (names path)
    pub directory : parent ≡ true → result.0 ≡ resolve_parent ip (names path)
    pub locks : (i : ℕ) → result.1.locks i ≡ s.locks i
    pub refs :
        (i : ℕ) → result.1.refs i + (if i == ip then 1 else 0) ≡ s.refs i + returned result.0 i

  ends :
      (parent : Bool) (ip : ℕ) (path name : List ℕ) (s : Inodes)
      → names path ≡ []
      → 1 ≤ s.refs ip
      → Resolves parent ip path s (if parent then (none, iput ip s) else (some (ip, name), s))
  ends parent ip path name s empty held = record {
    whole = λ e. ground (arith, e, ap (resolve ip) empty);
    directory = λ e. ground (arith, e, ap (resolve_parent ip) empty);
    locks = λ i. ground arith;
    refs = λ i. ground (arith, held);
  }

  -- A name, what `namex` does with it, and the rest of the path.
  module _ (parent : Bool) (ip : ℕ) (path : List ℕ) (s : Inodes) (held : 1 ≤ s.refs ip)
      (x : Split path) where
    fails :
        resolve ip (names path) ≡ none
        → resolve_parent ip (names path) ≡ none
        → Resolves parent ip path s (none, iunlockput ip (ilock ip s))
    fails e1 e2 = record {
      whole = λ e. sym e1;
      directory = λ e. sym e2;
      locks = λ i. ground arith;
      refs = λ i. ground (arith, held);
    }

    not_dir : is_dir ip ≡ false → Resolves parent ip path s (none, iunlockput ip (ilock ip s))
    not_dir e = fails (ap (resolve ip) x.listed ∙ ground (arith, e)) (
        ap (resolve_parent ip) x.listed ∙ elim (List-cases (names x.rest)) [
          | inl l ↦ ap (λ r. resolve_parent ip (x.name ∷ r)) l ∙ ground (arith, e)
          | inr (m, ns, l) ↦ ap (λ r. resolve_parent ip (x.name ∷ r)) l ∙ ground (arith, e)
        ])

    stops :
        is_dir ip ≡ true
        → parent ≡ true
        → names x.rest ≡ []
        → Resolves parent ip path s (some (ip, x.name), iunlock ip (ilock ip s))
    stops e p l = record {
      whole = λ f. absurd (ground (arith, f, p));
      directory = λ f. sym (
          ap (resolve_parent ip) x.listed
          ∙ ap (λ r. resolve_parent ip (x.name ∷ r)) l
          ∙ ground (arith, e));
      locks = λ i. ground arith;
      refs = λ i. ground arith;
    }

    goes_on :
        is_dir ip ≡ true
        → (next : ℕ) → dirlookup ip x.name ≡ some next
        → (parent ≡ true → names x.rest ≢ [])
        → (result : Option (ℕ × List ℕ) × Inodes)
        → Resolves parent next x.rest (iunlockput ip (get_ref next (ilock ip s))) result
        → Resolves parent ip path s result
    goes_on e next found more result r = record {
      whole = λ f. r.whole f ∙ sym (ap (resolve ip) x.listed ∙ ground (arith, e, found));
      directory = λ f. elim (List-cases (names x.rest)) [
        | inl l ↦ absurd (more f l)
        | inr (m, ns, l) ↦
            r.directory f
            ∙ ap (resolve_parent next) l
            ∙ sym (
                ap (resolve_parent ip) x.listed
                ∙ ap (λ r. resolve_parent ip (x.name ∷ r)) l
                ∙ ground (arith, e, found))
      ];
      locks = λ i. r.locks i ∙ ground arith;
      refs = λ i. ground (arith, r.refs i, held);
    }

    missing :
        is_dir ip ≡ true
        → dirlookup ip x.name ≡ none
        → (parent ≡ true → names x.rest ≢ [])
        → Resolves parent ip path s (none, iunlockput ip (ilock ip s))
    missing e found more = record {
      whole = λ f. sym (ap (resolve ip) x.listed ∙ ground (arith, e, found));
      directory = λ f. elim (List-cases (names x.rest)) [
        | inl l ↦ absurd (more f l)
        | inr (m, ns, l) ↦ sym (
            ap (resolve_parent ip) x.listed
            ∙ ap (λ r. resolve_parent ip (x.name ∷ r)) l
            ∙ ground (arith, e, found))
      ];
      locks = λ i. ground arith;
      refs = λ i. ground (arith, held);
    }

  -- Without leading slashes a path ends where its names do.
  last_name : (path : List ℕ) → skip_slashes path ≡ path → length path ≡ 0 → names path ≡ []
  last_name [] e size = refl
  last_name (c ∷ cs) e size = absurd (omega (arith, size))

  more_names : (path : List ℕ) → skip_slashes path ≡ path → length path ≢ 0 → names path ≢ []
  more_names [] e size = absurd (size refl)
  more_names (c ∷ cs) e size = λ none_lem.
      let x = skipelem-Split (c ∷ cs) c cs e in
      let both : x.name ∷ names x.rest ≡ [] = sym x.listed ∙ none_lem in
      absurd (ground (arith, both))

  pub namex_from-Resolves :
      (fuel : ℕ) (parent : Bool) (ip : ℕ) (path name : List ℕ) (s : Inodes)
      → length path < fuel
      → 1 ≤ s.refs ip
      → Resolves parent ip path s (namex_from is_dir dirlookup fuel parent ip path name s)
  unfolding namex_from
  namex_from-Resolves zero parent ip path name s enough held = absurd (omega (arith, enough))
  namex_from-Resolves (suc fuel) parent ip path name s enough held =
      let result = namex_from is_dir dirlookup (suc fuel) parent ip path name s in
      elim (List-cases (skip_slashes path)) [
        | inl l ↦
            let (e, empty) = skipelem-nil path l in
            subst (Resolves parent ip path s) {y = result} (ground (arith, e))
              (ends parent ip path name s empty held)
        | inr (c, cs, l) ↦
            let x = skipelem-Split path c cs l in
            elim (Bool-cases (is_dir ip)) [
              | inr plain ↦
                  subst (Resolves parent ip path s) {y = result} (ground (arith, x.split, plain))
                    (not_dir parent ip path s held x plain)
              | inl dir ↦ elim (Bool-cases (parent && (length x.rest == 0))) [
                | inl stop ↦
                    let last : names x.rest ≡ [] =
                      last_name x.rest x.trimmed (ground (arith, stop)) in
                    subst (Resolves parent ip path s) {y = result}
                      (ground (arith, x.split, dir, stop))
                      (stops parent ip path s held x dir (ground (arith, stop)) last)
                | inr on ↦
                    let more : parent ≡ true → names x.rest ≢ [] =
                      λ f. more_names x.rest x.trimmed (λ size. ground (arith, on, f, size)) in
                    elim (Option-cases (dirlookup ip x.name)) [
                      | inl absent ↦
                          subst (Resolves parent ip path s) {y = result}
                            (ground (arith, x.split, dir, on, absent))
                            (missing parent ip path s held x dir absent more)
                      | inr (next, found) ↦
                          let s' = iunlockput ip (get_ref next (ilock ip s)) in
                          let tail =
                            namex_from is_dir dirlookup fuel parent next x.rest x.name s' in
                          subst (Resolves parent ip path s) {y = result}
                            (ground (arith, x.split, dir, on, found))
                            (goes_on parent ip path s held x dir next found more tail (
                              namex_from-Resolves fuel parent next x.rest x.name s'
                                (omega (arith, x.shorter, enough)) (ground (arith, held))))
                    ]
              ]
            ]
      ]

  -- A path that begins with a slash is looked up from the root.
  abbrev pub start : (root cwd : ℕ) (path : List ℕ) → ℕ
  start root cwd [] = cwd
  start root cwd (c ∷ cs) = if c == slash then root else cwd

  -- The right inode, no lock, and one reference to what is returned.
  pub record Finds (root cwd : ℕ) (parent : Bool) (path : List ℕ) (s : Inodes)
      (result : Option (ℕ × List ℕ) × Inodes) : Type 0 where
    pub whole : parent ≡ false → inode result.0 ≡ resolve (start root cwd path) (names path)
    pub directory : parent ≡ true → result.0 ≡ resolve_parent (start root cwd path) (names path)
    pub locks : (i : ℕ) → result.1.locks i ≡ s.locks i
    pub refs : (i : ℕ) → result.1.refs i ≡ s.refs i + returned result.0 i

  -- `namex` returns the inode that the names of the path lead to one after the other, from the root or from the
  -- directory of the process, or for the parent the directory of the last name and that name; none if a name
  -- is missing or something on the way is no directory. It leaves no lock, and no reference but
  -- the one to the inode that it returns.
  pub namex-Finds :
      (root cwd : ℕ) (path : List ℕ) (parent : Bool) (name : List ℕ) (s : Inodes)
      → Finds root cwd parent path s (namex is_dir dirlookup root cwd path parent name s)
  unfolding namex
  namex-Finds root cwd path parent name s =
      let ip = start root cwd path in
      let r =
        namex_from-Resolves (length path + 1) parent ip path name (get_ref ip s) (omega arith)
          (ground arith) in
      let here : namex is_dir dirlookup root cwd path parent name s
          ≡ namex_from is_dir dirlookup (length path + 1) parent ip path name (get_ref ip s) =
        elim (List-cases path) [ inl l ↦ ground (arith, l) | inr (c, cs, l) ↦ ground (arith, l) ] in
      subst (Finds root cwd parent path s) (sym here) (record {
        whole = r.whole;
        directory = r.directory;
        locks = r.locks;
        refs = λ i. ground (arith, r.refs i);
      })
