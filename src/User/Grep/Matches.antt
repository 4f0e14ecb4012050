-- ===== src/User/Grep/Matches.antt =====
-- What the patterns of grep mean, and that `match` finds exactly that.
use operating_system_lab_pro.Prelude.{
  ℕ, ◌≡◌, ◌↔◌, inl, inr, refl, ap, ◌∙◌, Bool, true, false, List, [], ◌∷◌, ◌++◌, arith, All, ◌==◌,
  Bool-cases, if◌then◌else◌,
}
use operating_system_lab_pro.User.Grep.{
  caret, dollar, star, admits, matchstar, match_one, is_end, matchhere, match_from, match,
}

-- One byte, or any number of them.
pub data Item : Type 0 where
  one : ℕ → Item
  many : ℕ → Item

-- A pattern after its `^`; `whole` says that it ends in a `$`.
pub record Pattern : Type 0 where
  pub items : List Item
  pub whole : Bool

abbrev pub add : Item → Pattern → Pattern
add i p = record p { items = i ∷ p.items }

-- A `*` at the start stands for itself, as does a `$` or a `^` that is not at its place.
unfoldable pub parse : List ℕ → Pattern
parse [] = record { items = []; whole = false }
parse (r ∷ []) =
    if r == dollar
    then record { items = []; whole = true }
    else record { items = one r ∷ []; whole = false }
parse (r ∷ r' ∷ re) =
    let starred = parse re in
    let plain = parse (r' ∷ re) in if r' == star then add (many r) starred else add (one r) plain

-- Some bytes that `r` admits, and then what `Rest` says.
pub record Many (r : ℕ) (Rest : List ℕ → Type 0) (text : List ℕ) : Type 0 where
  pub taken : List ℕ
  pub back : List ℕ
  pub splits : text ≡ taken ++ back
  pub admitted : All (λ c. admits r c ≡ true) taken
  pub follows : Rest back

pub record One (r : ℕ) (Rest : List ℕ → Type 0) (text : List ℕ) : Type 0 where
  pub byte : ℕ
  pub back : List ℕ
  pub splits : text ≡ byte ∷ back
  pub admitted : admits r byte ≡ true
  pub follows : Rest back

-- The items match one after the other from the start of the text, to its end if `whole`.
unfoldable pub StartsWith : List Item → (whole : Bool) → List ℕ → Type 0
StartsWith [] whole text = whole ≡ true → text ≡ []
StartsWith (one r ∷ items) whole text = One r (StartsWith items whole) text
StartsWith (many r ∷ items) whole text = Many r (StartsWith items whole) text

unfoldable pub Matches : Pattern → List ℕ → Type 0
unfolding StartsWith
Matches p text = StartsWith p.items p.whole text

pub record Contains (p : Pattern) (text : List ℕ) : Type 0 where
  pub front : List ℕ
  pub back : List ℕ
  pub splits : text ≡ front ++ back
  pub there : Matches p back

module _ (r : ℕ) (here : List ℕ → Bool) (Rest : List ℕ → Type 0)
    (iff : (t : List ℕ) → (here t ≡ true) ↔ Rest t) where
  matchstar_to : (text : List ℕ) → matchstar r here text ≡ true → Many r Rest text
  unfolding matchstar
  matchstar_to [] e = record {
    taken = [];
    back = [];
    splits = refl;
    admitted = tt;
    follows = (iff []).0 e;
  }
  matchstar_to (t ∷ text) e = elim (Bool-cases (here (t ∷ text))) [
    | inl found ↦ record {
      taken = [];
      back = t ∷ text;
      splits = refl;
      admitted = tt;
      follows = (iff (t ∷ text)).0 found;
    }
    | inr later ↦
        let rest = matchstar_to text (ground (arith, e, later)) in
        record {
          taken = t ∷ rest.taken;
          back = rest.back;
          splits = ap (λ w. t ∷ w) rest.splits;
          admitted = (ground (arith, e, later), rest.admitted);
          follows = rest.follows;
        }
  ]

  here_first : (text : List ℕ) → here text ≡ true → matchstar r here text ≡ true
  unfolding matchstar
  here_first [] e = e
  here_first (t ∷ text) e = ground (arith, e)

  matchstar_of :
      (taken back : List ℕ)
      → All (λ c. admits r c ≡ true) taken
      → Rest back
      → matchstar r here (taken ++ back) ≡ true
  unfolding matchstar
  matchstar_of [] back admitted follows = here_first back ((iff back).1 follows)
  matchstar_of (c ∷ taken) back admitted follows =
      ground (arith, admitted.0, matchstar_of taken back admitted.1 follows)

  matchstar_iff : (text : List ℕ) → (matchstar r here text ≡ true) ↔ Many r Rest text
  matchstar_iff text = (
    matchstar_to text,
    λ m. ap (matchstar r here) m.splits ∙ matchstar_of m.taken m.back m.admitted m.follows,
  )

  match_one_iff : (text : List ℕ) → (match_one r here text ≡ true) ↔ One r Rest text
  unfolding match_one
  match_one_iff [] = (λ e. absurd (ground (arith, e)), λ o. absurd (ground (arith, o.splits)))
  match_one_iff (t ∷ text) = (
    λ e. record {
      byte = t;
      back = text;
      splits = refl;
      admitted = ground (arith, e);
      follows = (iff text).0 (ground (arith, e));
    },
    λ o. ap (match_one r here) o.splits ∙ ground (arith, o.admitted, (iff o.back).1 o.follows),
  )

is_end_iff : (text : List ℕ) → (is_end text ≡ true) ↔ (text ≡ [])
is_end_iff [] = (λ e. refl, λ e. refl)
is_end_iff (t ∷ text) = (λ e. absurd (ground (arith, e)), λ e. absurd (ground (arith, e)))

-- A test and its meaning, in both cases of a condition.
iff-if :
    (c : Bool) (x y : Bool) (p q : Pattern) (text : List ℕ)
    → ((x ≡ true) ↔ Matches p text)
    → ((y ≡ true) ↔ Matches q text)
    → ((if c then x else y) ≡ true) ↔ Matches (if c then p else q) text
iff-if true x y p q text f g = f
iff-if false x y p q text f g = g

matchhere_iff : (re text : List ℕ) → (matchhere re text ≡ true) ↔ Matches (parse re) text
unfolding matchhere parse Matches
matchhere_iff [] text = (λ e f. absurd (ground (arith, f)), λ f. refl)
matchhere_iff (r ∷ []) text =
    iff-if (r == dollar) (is_end text) (match_one r (matchhere []) text)
      (record { items = []; whole = true }) (record { items = one r ∷ []; whole = false }) text
      ((λ e f. (is_end_iff text).0 e), λ f. (is_end_iff text).1 (f refl))
      (match_one_iff r (matchhere []) (StartsWith [] false) (matchhere_iff []) text)
matchhere_iff (r ∷ r' ∷ re) text =
    iff-if (r' == star) (matchstar r (matchhere re) text) (match_one r (matchhere (r' ∷ re)) text)
      (add (many r) (parse re)) (add (one r) (parse (r' ∷ re))) text
      (matchstar_iff r (matchhere re) (Matches (parse re)) (matchhere_iff re) text)
      (match_one_iff r (matchhere (r' ∷ re)) (Matches (parse (r' ∷ re))) (matchhere_iff (r' ∷ re))
        text)

module _ (re : List ℕ) where
  found_here : (text : List ℕ) → matchhere re text ≡ true → match_from (matchhere re) text ≡ true
  unfolding match_from
  found_here [] e = e
  found_here (t ∷ text) e = ground (arith, e)

  Contains-to : (text : List ℕ) → match_from (matchhere re) text ≡ true → Contains (parse re) text
  unfolding match_from
  Contains-to [] e = record {
    front = [];
    back = [];
    splits = refl;
    there = (matchhere_iff re []).0 e;
  }
  Contains-to (t ∷ text) e = elim (Bool-cases (matchhere re (t ∷ text))) [
    | inl found ↦ record {
      front = [];
      back = t ∷ text;
      splits = refl;
      there = (matchhere_iff re (t ∷ text)).0 found;
    }
    | inr later ↦
        let rest = Contains-to text (ground (arith, e, later)) in
        record {
          front = t ∷ rest.front;
          back = rest.back;
          splits = ap (λ w. t ∷ w) rest.splits;
          there = rest.there;
        }
  ]

  Contains-of :
      (front back : List ℕ)
      → Matches (parse re) back
      → match_from (matchhere re) (front ++ back) ≡ true
  unfolding match_from
  Contains-of [] back m = found_here back ((matchhere_iff re back).1 m)
  Contains-of (t ∷ front) back m = ground (arith, Contains-of front back m)

  Contains-iff :
      (text : List ℕ) → (match_from (matchhere re) text ≡ true) ↔ Contains (parse re) text
  Contains-iff text = (
    Contains-to text,
    λ c. ap (match_from (matchhere re)) c.splits ∙ Contains-of c.front c.back c.there,
  )

-- One of two statements.
abbrev pub Cond : Bool → (A B : Type 0) → Type 0
Cond true A B = A
Cond false A B = B

-- A `^` ties the rest of the pattern to the start of the text.
unfoldable pub Describes : (re text : List ℕ) → Type 0
unfolding Matches parse
Describes [] text = Contains (parse []) text
Describes (r ∷ re) text =
    Cond (r == caret) (Matches (parse re) text) (Contains (parse (r ∷ re)) text)

if_iff :
    {A B : Type 0} (c x y : Bool)
    → ((x ≡ true) ↔ A)
    → ((y ≡ true) ↔ B)
    → ((if c then x else y) ≡ true) ↔ Cond c A B
if_iff true x y f g = f
if_iff false x y f g = g

-- For every pattern and text, `match` returns 1 exactly if the text has what the pattern describes: a
-- place, its start after a `^`, where the pattern's items match one after the other, up to its end
-- before a closing `$`.
pub match_iff : (re text : List ℕ) → (match re text ≡ true) ↔ Describes re text
unfolding match Describes
match_iff [] text = Contains-iff [] text
match_iff (r ∷ re) text =
    if_iff (r == caret) (matchhere re text) (match_from (matchhere (r ∷ re)) text)
      (matchhere_iff re text) (Contains-iff (r ∷ re) text)
