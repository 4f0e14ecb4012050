-- ===== src/Kernel/Cache/Search.antt =====
-- What the loops of `bget` find: the first buffer of the list, or the last.
use operating_system_lab_pro.Prelude.{
  ℕ, suc, ◌+◌, ◌≡◌, sym, ap, ◌∙◌, Bool, true, false, List, [], ◌∷◌, Option, none, some,
  if◌then◌else◌, arith, length, All, Option-cases, Bool-cases, inl, inr,
}
use operating_system_lab_pro.Kernel.Cache.{head, scan}
use operating_system_lab_pro.Kernel.Cache.Ring.{Links, Apart, Member}

abbrev pub first : (ℕ → Bool) → List ℕ → Option ℕ
first p [] = none
first p (x ∷ xs) = if p x then some x else first p xs

abbrev pub last : (ℕ → Bool) → List ℕ → Option ℕ
last p [] = none
last p (x ∷ xs) = elim (last p xs) [ some y ↦ some y | none ↦ if p x then some x else none ]

pub scan-first :
    (prev next : ℕ → ℕ) (p : ℕ → Bool) (a : ℕ) (l : List ℕ)
    → Links prev next a l
    → Apart head l
    → scan next p (length l + 1) (next a) ≡ first p l
unfolding scan
scan-first prev next p a [] h d = ground (arith, h)
scan-first prev next p a (x ∷ xs) h d =
    let one_more : length (x ∷ xs) + 1 ≡ suc (length xs + 1) = omega arith in
    let rest = scan-first prev next p x xs h.2 d.1 in
    ap (λ k. scan next p k (next a)) one_more ∙ ground (arith, h.0, d.0, rest)

scan-back :
    (prev next : ℕ → ℕ) (p : ℕ → Bool) (a k : ℕ) (l : List ℕ)
    → Links prev next a l
    → Apart head l
    → scan prev p (length l + k) (prev head)
      ≡ elim (last p l) [ some y ↦ some y | none ↦ scan prev p k a ]
unfolding scan
scan-back prev next p a k [] h d = ap (λ z. scan prev p (0 + k) z) h.1 ∙ ground arith
scan-back prev next p a k (x ∷ xs) h d =
    let one_more : length (x ∷ xs) + k ≡ length xs + suc k = omega arith in
    let rest = scan-back prev next p x (suc k) xs h.2 d.1 in
    ap (λ k. scan prev p k (prev head)) one_more ∙ rest ∙ ground (arith, h.1, d.0)

pub scan-last :
    (prev next : ℕ → ℕ) (p : ℕ → Bool) (l : List ℕ)
    → Links prev next head l
    → Apart head l
    → scan prev p (length l + 1) (prev head) ≡ last p l
unfolding scan
scan-last prev next p l h d = ground (arith, scan-back prev next p head 1 l h d)

pub first-found :
    (p : ℕ → Bool) (l : List ℕ) (b : ℕ) → first p l ≡ some b → Member b l × (p b ≡ true)
first-found p [] b e = absurd (ground (arith, e))
first-found p (x ∷ xs) b e = elim (Bool-cases (p x)) [
  | inl here ↦
      let same : x ≡ b = ground (arith, e, here) in (inl (sym same), ap p (sym same) ∙ here)
  | inr away ↦ let (i, h) = first-found p xs b (ground (arith, e, away)) in (inr i, h)
]

pub first-missing : (p : ℕ → Bool) (l : List ℕ) → first p l ≡ none → All (λ b. p b ≡ false) l
first-missing p [] e = ground arith
first-missing p (x ∷ xs) e = (ground (arith, e), first-missing p xs (ground (arith, e)))

pub last-found : (p : ℕ → Bool) (l : List ℕ) (b : ℕ) → last p l ≡ some b → Member b l × (p b ≡ true)
last-found p [] b e = absurd (ground (arith, e))
last-found p (x ∷ xs) b e = elim (Option-cases (last p xs)) [
  | inr (y, found) ↦
      let same : y ≡ b = ground (arith, e, found) in
      let (i, h) = last-found p xs b (found ∙ ap some same) in (inr i, h)
  | inl away ↦ elim (Bool-cases (p x)) [
    | inl here ↦
        let same : x ≡ b = ground (arith, e, here, away) in (inl (sym same), ap p (sym same) ∙ here)
    | inr not_here ↦ absurd (ground (arith, e, not_here, away))
  ]
]

pub last-missing : (p : ℕ → Bool) (l : List ℕ) → last p l ≡ none → All (λ b. p b ≡ false) l
last-missing p [] e = ground arith
last-missing p (x ∷ xs) e =
    let rest : last p xs ≡ none = ground (arith, e) in
    (ground (arith, e, rest), last-missing p xs rest)
