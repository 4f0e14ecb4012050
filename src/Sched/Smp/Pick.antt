-- ===== src/Sched/Smp/Pick.antt =====
-- The choice: an eligible process with the smallest key, the first of these.
use operating_system_lab_pro.Prelude.{
  ℕ, zero, suc, ◌+◌, ◌≤◌, ◌<◌, ◌≡◌, ◌⊎◌, refl, true, false, List, [], ◌∷◌, Option, none, some,
  arith, get_elem?, ltb, Bool-cases, inl, inr, ◌&&◌, ◌∙◌, ap,
}
use operating_system_lab_pro.Sched.Smp.{Process, eligible, pick_from, pick}

module _ (key : Process → ℕ) (now : ℕ) where
  -- No eligible process of `ps` has a key below `bound`.
  abbrev pub NoneBelow : List Process → ℕ → Type 0
  NoneBelow ps bound =
      (j : ℕ) (q : Process) → get_elem? ps j ≡ some q → eligible now q ≡ true → bound ≤ key q

  -- Process `w` is eligible, with the smallest key of all that are; the key is below `cap`.
  pub record IsBest (cap : ℕ) (ps : List Process) (w : ℕ) : Type 0 where
    pub winner : Process
    pub at : get_elem? ps w ≡ some winner
    pub fit : eligible now winner ≡ true
    pub small : key winner < cap
    pub least : NoneBelow ps (key winner)
    pub first :
        (j : ℕ) (q : Process)
        → j < w
        → get_elem? ps j ≡ some q
        → eligible now q ≡ true
        → key winner < key q

  -- What the loop has found from index `i` on: nothing below `best`, or an index and its process.
  data Scan (chosen : Option ℕ) (best i : ℕ) (ps : List Process) (r : Option ℕ) : Type 0 where
    kept : r ≡ chosen → NoneBelow ps best → Scan chosen best i ps r
    found : (d : ℕ) → r ≡ some (i + d) → IsBest best ps d → Scan chosen best i ps r

  NoneBelow-cons :
      (p : Process) (ps : List Process) (bound : ℕ)
      → (eligible now p ≡ true → bound ≤ key p)
      → NoneBelow ps bound
      → NoneBelow (p ∷ ps) bound
  NoneBelow-cons p ps bound h rest zero q at fit = ground (arith, h)
  NoneBelow-cons p ps bound h rest (suc j) q at fit = rest j q at fit

  here-IsBest :
      (p : Process) (ps : List Process) (best : ℕ)
      → eligible now p ≡ true
      → key p < best
      → NoneBelow ps (key p)
      → IsBest best (p ∷ ps) 0
  here-IsBest p ps best fit lt rest = record {
    winner = p;
    at = refl;
    fit = fit;
    small = lt;
    least = NoneBelow-cons p ps (key p) (λ e. omega arith) rest;
    first = λ j q h. absurd (omega arith);
  }

  there-IsBest :
      (p : Process) (ps : List Process) (best bound d : ℕ)
      → (eligible now p ≡ true → bound ≤ key p)
      → bound ≤ best
      → IsBest bound ps d
      → IsBest best (p ∷ ps) (suc d)
  there-IsBest p ps best bound d h le b = record {
    winner = b.winner;
    at = b.at;
    fit = b.fit;
    small = omega (arith, b.small);
    least = NoneBelow-cons p ps (key b.winner) (λ e. omega (arith, h e, b.small)) b.least;
    first = earlier;
  }
    where
      earlier :
          (j : ℕ) (q : Process)
          → j < suc d
          → get_elem? (p ∷ ps) j ≡ some q
          → eligible now q ≡ true
          → key b.winner < key q
      earlier zero q lt at fit = ground (arith, h, b.small)
      earlier (suc j) q lt at fit = b.first j q (omega arith) at fit

  taken :
      (p : Process) (ps : List Process) (chosen : Option ℕ) (best i : ℕ) {r : Option ℕ}
      → (eligible now p && ltb (key p) best) ≡ true
      → Scan (some i) (key p) (i + 1) ps r
      → Scan chosen best i (p ∷ ps) r
  taken p ps chosen best i better (kept e h) =
      found 0 (e ∙ ap some (omega arith)) (here-IsBest p ps best (ground arith) (ground arith) h)
  taken p ps chosen best i better (found d e b) =
      found (suc d) (e ∙ ap some (omega arith))
        (there-IsBest p ps best (key p) d (λ f. omega arith) (ground arith) b)

  passed :
      (p : Process) (ps : List Process) (chosen : Option ℕ) (best i : ℕ) {r : Option ℕ}
      → (eligible now p && ltb (key p) best) ≡ false
      → Scan chosen best (i + 1) ps r
      → Scan chosen best i (p ∷ ps) r
  passed p ps chosen best i worse (kept e h) =
      kept e (NoneBelow-cons p ps best (λ f. ground arith) h)
  passed p ps chosen best i worse (found d e b) =
      found (suc d) (e ∙ ap some (omega arith))
        (there-IsBest p ps best best d (λ f. ground arith) (omega arith) b)

  scan_lem :
      (ps : List Process) (chosen : Option ℕ) (best i : ℕ)
      → Scan chosen best i ps (pick_from key now chosen best i ps)
  unfolding pick_from
  scan_lem [] chosen best i = kept refl (λ j q at. absurd (cc))
  scan_lem (p ∷ ps) chosen best i = elim (Bool-cases (eligible now p && ltb (key p) best)) [
    | inl better ↦
        rw better (taken p ps chosen best i better (scan_lem ps (some i) (key p) (i + 1)))
    | inr worse ↦ rw worse (passed p ps chosen best i worse (scan_lem ps chosen best (i + 1)))
  ]

  pick_cases :
      (cap : ℕ) (ps : List Process) {r : Option ℕ}
      → Scan none cap 0 ps r
      → ((r ≡ none) × NoneBelow ps cap) ⊎ ((w : ℕ) × (r ≡ some w) × IsBest cap ps w)
  pick_cases cap ps (kept e h) = inl (e, h)
  pick_cases cap ps (found d e b) = inr (d, e ∙ ap some (omega arith), b)

  -- The choice is an eligible process with the smallest key, the first of these in the table; and
  -- there is none exactly where no eligible process has a key below the cap.
  pub pick_lem :
      (cap : ℕ) (ps : List Process)
      → ((pick key cap now ps ≡ none) × NoneBelow ps cap)
        ⊎ ((w : ℕ) × (pick key cap now ps ≡ some w) × IsBest cap ps w)
  unfolding pick
  pick_lem cap ps = pick_cases cap ps (scan_lem ps none cap 0)
