-- ===== src/Kernel/Family/Exit.antt =====
-- What `kexit` leaves behind.
use operating_system_lab_pro.Prelude.{
  ℕ, zero, suc, ◌+◌, ◌≤◌, ◌<◌, ◌≡◌, ◌≢◌, refl, sym, ap, ◌∙◌, false, ◌&&◌, List, [], ◌∷◌, Option,
  none, some, arith, length, length-set, get_elem?, get_elem?-set, lt_of_get_elem?, set, ltb, ◌==◌,
  if◌then◌else◌, ℤ, Bool-cases, Option-cases, inl, inr, ℕ_discrete,
}
use mathlib.Core.Path.{subst}
use operating_system_lab_pro.Kernel.Proc.{sleeping, zombie, Proc}
use operating_system_lab_pro.Kernel.Family.{
  chan_of, parent_chan, woken, wakeup_from, wakeup, is_child, reparent_one, reparent_from, reparent,
  ended, kexit,
}

abbrev woken? : (me chan j : ℕ) → Option Proc → Option Proc
woken? me chan j none = none
woken? me chan j (some p) = some (woken me chan j p)

wakeup_from-at :
    (me chan j k : ℕ) (ps : List Proc)
    → get_elem? (wakeup_from me chan j ps) k ≡ woken? me chan (j + k) (get_elem? ps k)
unfolding wakeup_from
wakeup_from-at me chan j k [] = refl
wakeup_from-at me chan j zero (p ∷ ps) = ap (λ i. some (woken me chan i p)) (omega arith)
wakeup_from-at me chan j (suc k) (p ∷ ps) =
    wakeup_from-at me chan (j + 1) k ps ∙ ap (λ i. woken? me chan i (get_elem? ps k)) (omega arith)

wakeup-at :
    (me chan k : ℕ) (ps : List Proc)
    → get_elem? (wakeup me chan ps) k ≡ woken? me chan k (get_elem? ps k)
unfolding wakeup
wakeup-at me chan k ps =
    wakeup_from-at me chan 0 k ps ∙ ap (λ i. woken? me chan i (get_elem? ps k)) (omega arith)

-- A woken process has the parent that it had.
woken_from :
    (me chan k : ℕ) (o : Option Proc) {q : Proc}
    → woken? me chan k o ≡ some q
    → (p : Proc) × (o ≡ some p) × (q.parent ≡ p.parent)
woken_from me chan k none e = absurd (cc)
woken_from me chan k (some p) e = (p, refl, ground arith)

length-wakeup_from :
    (me chan j : ℕ) (ps : List Proc) → length (wakeup_from me chan j ps) ≡ length ps
unfolding wakeup_from
length-wakeup_from me chan j [] = refl
length-wakeup_from me chan j (p ∷ ps) = ap suc (length-wakeup_from me chan (j + 1) ps)

-- Nobody below `j` has the parent `me`.
abbrev NoneBelow : (me j : ℕ) → List Proc → Type 0
NoneBelow me j ps = (k : ℕ) (p : Proc) → k < j → get_elem? ps k ≡ some p → is_child me p ≡ false

module _ (me init : ℕ) (other : me ≢ init) where
  one_length : (j : ℕ) (ps : List Proc) → length (reparent_one me init j ps) ≡ length ps
  unfolding reparent_one wakeup
  one_length j ps = elim (Option-cases (get_elem? ps j)) [
    | inl e ↦ ap length (ground arith)
    | inr (p, e) ↦ elim (Bool-cases (is_child me p)) [
      | inl c ↦
          ap length (ground arith)
          ∙ length-wakeup_from me (chan_of init) 0 (set ps j (record p { parent = some init }))
          ∙ length-set ps j (record p { parent = some init })
      | inr c ↦ ap length (ground arith)
    ]
  ]

  one_adopts :
      (j : ℕ) (ps : List Proc)
      → NoneBelow me j ps
      → NoneBelow me (j + 1) (reparent_one me init j ps)
  unfolding reparent_one
  one_adopts j ps h k q lt e = elim (Option-cases (get_elem? ps j)) [
    | inl gone ↦ ground (arith, h k q)
    | inr (p, at) ↦ elim (Bool-cases (is_child me p)) [
      | inl c ↦
          let ps' = set ps j (record p { parent = some init }) in
          let step : reparent_one me init j ps ≡ wakeup me (chan_of init) ps' = ground arith in
          let (o, at', same) =
            woken_from me (chan_of init) k (get_elem? ps' k) (
              sym (wakeup-at me (chan_of init) k ps') ∙ (ap (λ t. get_elem? t k) (sym step) ∙ e)) in
          elim (ℕ_discrete j k) [
            | yes here ↦
                let adopted : o ≡ record p { parent = some init } = ground (
                  arith,
                  get_elem?-set ps j k (record p { parent = some init }),
                  lt_of_get_elem? ps j p at,
                ) in
                ground (arith, same, adopted)
            | no there ↦
                let before : get_elem? ps k ≡ some o =
                  ground (arith, get_elem?-set ps j k (record p { parent = some init })) in
                ground (arith, same, h k o (omega arith) before)
          ]
      | inr c ↦ ground (arith, h k q)
    ]
  ]

  from_adopts :
      (n j : ℕ) (ps : List Proc)
      → NoneBelow me j ps
      → NoneBelow me (j + n) (reparent_from me init n j ps)
  unfolding reparent_from
  from_adopts zero j ps h k q lt e = h k q (omega arith) e
  from_adopts (suc n) j ps h k q lt e =
      from_adopts n (j + 1) (reparent_one me init j ps) (one_adopts j ps h) k q (omega arith) e

  from_length : (n j : ℕ) (ps : List Proc) → length (reparent_from me init n j ps) ≡ length ps
  unfolding reparent_from
  from_length zero j ps = refl
  from_length (suc n) j ps = from_length n (j + 1) (reparent_one me init j ps) ∙ one_length j ps

  reparent_adopts :
      (ps : List Proc) (k : ℕ) (q : Proc)
      → get_elem? (reparent me init ps) k ≡ some q
      → is_child me q ≡ false
  unfolding reparent
  reparent_adopts ps k q e =
      from_adopts (length ps) 0 ps (λ k p lt e. absurd (omega arith)) k q
        (omega (arith, lt_of_get_elem? (reparent me init ps) k q e, from_length (length ps) 0 ps)) e

woken_awake :
    (me chan k : ℕ) (o : Option Proc) {q : Proc}
    → woken? me chan k o ≡ some q
    → k ≢ me
    → q.state ≡ sleeping
    → q.chan ≢ chan
woken_awake me chan k none e ne s = absurd (cc)
woken_awake me chan k (some p) e ne s = ground arith

missing_beyond {ℓ} : {A : Type ℓ} (xs : List A) (i : ℕ) → get_elem? xs i ≡ none → length xs ≤ i
missing_beyond [] i e = omega arith
missing_beyond (x ∷ xs) zero e = absurd (cc)
missing_beyond (x ∷ xs) (suc i) e = omega (arith, missing_beyond xs i e)

-- The process `me` is over in the table `t`.
pub record IsOver (me : ℕ) (status : ℤ) (t : List Proc) : Type 0 where
  pub corpse : Proc
  pub at : get_elem? t me ≡ some corpse
  pub is_zombie : corpse.state ≡ zombie
  pub xstate : corpse.xstate ≡ status
  -- No process has it as parent.
  pub adopted : (k : ℕ) (q : Proc) → get_elem? t k ≡ some q → is_child me q ≡ false
  -- Its own parent does not sleep on its channel, where `kwait` and `kjoin` sleep.
  pub awake :
      (i : ℕ) (q : Proc)
      → corpse.parent ≡ some i
      → i ≢ me
      → get_elem? t i ≡ some q
      → q.state ≡ sleeping
      → q.chan ≢ chan_of i

module _ (me init : ℕ) (status : ℤ) (ps : List Proc) (other : me ≢ init) where
  module _ (o : Proc) (at : get_elem? (reparent me init ps) me ≡ some o) where
    abbrev ps' : List Proc
    ps' = reparent me init ps

    abbrev w : List Proc
    w = wakeup me (parent_chan o.parent) ps'

    last : Proc
    last = woken me (parent_chan o.parent) me o

    here : get_elem? w me ≡ some last
    unfolding last
    here = wakeup-at me (parent_chan o.parent) me ps' ∙ ap (woken? me (parent_chan o.parent) me) at

    same_parent : last.parent ≡ o.parent
    unfolding last
    same_parent = ground arith

    t-at :
        (k : ℕ)
        → get_elem? (set w me (ended status last)) k
          ≡ (if me == k && ltb me (length w) then some (ended status last) else get_elem? w k)
    t-at k = get_elem?-set w me k (ended status last)

    over : IsOver me status (set w me (ended status last))
    over = record {
      corpse = ended status last;
      at = ground (arith, t-at me, lt_of_get_elem? w me last here);
      is_zombie = refl;
      xstate = refl;
      adopted = λ k q e. elim (ℕ_discrete me k) [
        | yes same ↦
            let mine : q ≡ ended status last =
              ground (arith, t-at k, lt_of_get_elem? w me last here) in
            ground (arith, mine, same_parent, reparent_adopts me init other ps me o at)
        | no ne ↦
            let before : get_elem? w k ≡ some q = ground (arith, t-at k) in
            let (p, from, kept) =
              woken_from me (parent_chan o.parent) k (get_elem? ps' k)
                (sym (wakeup-at me (parent_chan o.parent) k ps') ∙ before) in
            ground (arith, kept, reparent_adopts me init other ps k p from)
      ];
      awake = λ i q mine ne e asleep.
          let before : get_elem? w i ≡ some q = ground (arith, t-at i) in
          subst (λ c. q.chan ≢ c) (ap parent_chan (sym same_parent ∙ mine))
            (woken_awake me (parent_chan o.parent) i (get_elem? ps' i)
              (sym (wakeup-at me (parent_chan o.parent) i ps') ∙ before) ne asleep);
    }

    kexit-eq : kexit me init status ps ≡ some (set w me (ended status last))
    unfolding kexit last
    kexit-eq = ground (arith, here)

  -- A process of the table other than the first one ends: it is a zombie with its status, no process
  -- has it as parent any more, and its own parent does not sleep where `kwait` and `kjoin` do.
  pub kexit-IsOver :
      me < length ps → (t : List Proc) × (kexit me init status ps ≡ some t) × IsOver me status t
  unfolding reparent
  kexit-IsOver lt = elim (Option-cases (get_elem? (reparent me init ps) me)) [
    | inl e ↦ absurd (
        omega (
          arith,
          missing_beyond (reparent me init ps) me e,
          from_length me init other (length ps) 0 ps,
        ))
    | inr (o, e) ↦ (
      set (wakeup me (parent_chan o.parent) (reparent me init ps)) me (ended status (last o e)),
      kexit-eq o e,
      over o e,
    )
  ]
