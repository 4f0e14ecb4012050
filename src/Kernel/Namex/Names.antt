-- ===== src/Kernel/Namex/Names.antt =====
-- The names in a path, and that `skipelem` takes the first.
use operating_system_lab_pro.Prelude.{
  ℕ, suc, ◌<◌, ◌≤◌, ◌≡◌, ◌≢◌, refl, sym, ap, ap₂, ◌∙◌, ℕ_discrete, List, [], ◌∷◌, ◌++◌, Option,
  none, some, ◌==◌, if◌then◌else◌, length, take, arith, append_assoc, append-nil,
}
use mathlib.Core.Path.{subst}
use operating_system_lab_pro.Kernel.Namex.{
  dirsiz, slash, skip_slashes, elem_of, after_elem, skipelem,
}

-- The name that has been read so far, if there is one.
abbrev pub flush : (n : ℕ) → List ℕ → List (List ℕ) → List (List ℕ)
flush n [] names = names
flush n (c ∷ cs) names = take n (c ∷ cs) ∷ names

-- A path read from left to right, with `word` the name so far: slashes end a name, and names have at
-- most `n` bytes.
abbrev pub names_from : (n : ℕ) (word path : List ℕ) → List (List ℕ)
names_from n word [] = flush n word []
names_from n word (c ∷ cs) =
    if c == slash then flush n word (names_from n [] cs) else names_from n (word ++ (c ∷ [])) cs

names-skip_slashes :
    (n : ℕ) (path : List ℕ) → names_from n [] (skip_slashes path) ≡ names_from n [] path
names-skip_slashes n [] = refl
names-skip_slashes n (c ∷ cs) = ground (arith, names-skip_slashes n cs)

names_from-elem_of :
    (n c : ℕ) (word path : List ℕ)
    → names_from n (c ∷ word) path
      ≡ take n ((c ∷ word) ++ elem_of path) ∷ names_from n [] (after_elem path)
names_from-elem_of n c word [] = ap (λ w. take n w ∷ []) (sym (append-nil (c ∷ word)))
names_from-elem_of n c word (d ∷ ds) = elim (ℕ_discrete d slash) [
  | yes e ↦
      let none_lem : elem_of (d ∷ ds) ≡ [] = ground (arith, e) in
      let all_lem : after_elem (d ∷ ds) ≡ d ∷ ds = ground (arith, e) in
      let flushed : names_from n (c ∷ word) (d ∷ ds) ≡ take n (c ∷ word) ∷ names_from n [] ds =
        ground (arith, e) in
      let rest : names_from n [] (d ∷ ds) ≡ names_from n [] ds = ground (arith, e) in
      let whole : (c ∷ word) ++ elem_of (d ∷ ds) ≡ c ∷ word =
        ap (λ w. (c ∷ word) ++ w) none_lem ∙ append-nil (c ∷ word) in
      flushed ∙ ap₂ (λ w r. take n w ∷ r) (sym whole) (sym (ap (names_from n []) all_lem ∙ rest))
  | no ne ↦
      let more_lem : elem_of (d ∷ ds) ≡ d ∷ elem_of ds = ground (arith, ne) in
      let past : after_elem (d ∷ ds) ≡ after_elem ds = ground (arith, ne) in
      let onward : names_from n (c ∷ word) (d ∷ ds) ≡ names_from n (c ∷ (word ++ (d ∷ []))) ds =
        ground (arith, ne) in
      let whole : (c ∷ (word ++ (d ∷ []))) ++ elem_of ds ≡ (c ∷ word) ++ elem_of (d ∷ ds) =
        append_assoc (c ∷ word) (d ∷ []) (elem_of ds) ∙ ap (λ w. (c ∷ word) ++ w) (sym more_lem) in
      onward
      ∙ names_from-elem_of n c (word ++ (d ∷ [])) ds
      ∙ ap₂ (λ w r. take n w ∷ names_from n [] r) whole (sym past)
]

abbrev pub names : List ℕ → List (List ℕ)
names path = names_from dirsiz [] path

length-skip_slashes : (path : List ℕ) → length (skip_slashes path) ≤ length path
length-skip_slashes [] = omega arith
length-skip_slashes (c ∷ cs) = ground (arith, length-skip_slashes cs)

length-after_elem : (path : List ℕ) → length (after_elem path) ≤ length path
length-after_elem [] = omega arith
length-after_elem (c ∷ cs) = ground (arith, length-after_elem cs)

skip_slashes_ne : (path : List ℕ) (c : ℕ) (cs : List ℕ) → skip_slashes path ≡ c ∷ cs → c ≢ slash
skip_slashes_ne [] c cs e = absurd (ground (arith, e))
skip_slashes_ne (d ∷ ds) c cs e = ground (arith, e, skip_slashes_ne ds c cs)

-- The path has no more names.
pub skipelem-nil :
    (path : List ℕ) → skip_slashes path ≡ [] → (skipelem path ≡ none) × (names path ≡ [])
unfolding skipelem
skipelem-nil path e = (ground (arith, e), sym (names-skip_slashes dirsiz path) ∙ ap names e)

-- A name, and the rest of the path, which is shorter and has no leading slash.
pub record Split (path : List ℕ) : Type 0 where
  pub rest : List ℕ
  pub name : List ℕ
  pub split : skipelem path ≡ some (rest, name)
  pub listed : names path ≡ name ∷ names rest
  pub shorter : length rest < length path
  pub trimmed : skip_slashes rest ≡ rest

trimmed_lem : (path : List ℕ) → skip_slashes (skip_slashes path) ≡ skip_slashes path
trimmed_lem [] = refl
trimmed_lem (c ∷ cs) = ground (arith, trimmed_lem cs)

pub skipelem-Split : (path : List ℕ) (c : ℕ) (cs : List ℕ) → skip_slashes path ≡ c ∷ cs → Split path
unfolding skipelem
skipelem-Split path c cs e =
    let ne = skip_slashes_ne path c cs e in
    let tail : after_elem (c ∷ cs) ≡ after_elem cs = ground (arith, ne) in
    let word : elem_of (c ∷ cs) ≡ c ∷ elem_of cs = ground (arith, ne) in
    let begins : names (c ∷ cs) ≡ names_from dirsiz (c ∷ []) cs = ground (arith, ne) in
    let size : suc (length cs) ≤ length path =
      subst (λ l. length l ≤ length path) e (length-skip_slashes path) in
    let trim = length-skip_slashes (after_elem cs) in
    record {
      rest = skip_slashes (after_elem (c ∷ cs));
      name = take dirsiz (elem_of (c ∷ cs));
      split =
          ap
            (λ l. elim l as (λ x. Option (List ℕ × List ℕ)) [
              | [] ↦ none
              | d ∷ ds ↦ some (skip_slashes (after_elem (d ∷ ds)), take dirsiz (elem_of (d ∷ ds)))
            ])
            e;
      listed =
          sym (names-skip_slashes dirsiz path)
          ∙ ap names e
          ∙ begins
          ∙ names_from-elem_of dirsiz c [] cs
          ∙ ap₂ (λ w r. take dirsiz w ∷ r) (sym word)
              (ap (names_from dirsiz []) (sym tail)
                ∙ sym (names-skip_slashes dirsiz (after_elem (c ∷ cs))));
      shorter =
          subst (λ r. length (skip_slashes r) < length path) (sym tail)
            (omega (arith, size, trim, length-after_elem cs));
      trimmed = trimmed_lem (after_elem (c ∷ cs));
    }
