-- ===== src/Kernel/Fork/Keep.antt =====
-- What wakeups and exits keep: the process IDs of the processes in use, and that they are in use.
use operating_system_lab_pro.Prelude.{
  ℕ, zero, suc, ◌+◌, ◌≡◌, refl, sym, ap, ◌∙◌, List, [], ◌∷◌, some, arith, length, get_elem?, set, ℤ,
  Bool-cases, inl, inr, Option-cases,
}
use mathlib.Core.Path.{subst}
use mathlib.Core.Option
use operating_system_lab_pro.Kernel.Proc.{Proc}
use operating_system_lab_pro.Kernel.Family.{
  woken, wakeup_from, wakeup, reparent_one, reparent_from, reparent, end_at, ended, kexit, is_child,
  parent_at, parent_chan, chan_of,
}
use operating_system_lab_pro.Kernel.Fork.Pids.{Live, set_at, Kept, Kept-refl, Kept-trans, Kept-set}

woken-Live : (me chan j : ℕ) (p : Proc) → Live (woken me chan j p) → Live p
woken-Live me chan j p live = ground (arith, live)

woken_pid : (me chan j : ℕ) (p : Proc) → p.pid ≡ (woken me chan j p).pid
woken_pid me chan j p = ground arith

wakeup_from-Kept : (me chan i : ℕ) (ps : List Proc) → Kept ps (wakeup_from me chan i ps)
unfolding wakeup_from
wakeup_from-Kept me chan i [] j q at live = absurd (ground (arith, at))
wakeup_from-Kept me chan i (p ∷ ps) zero q at live =
    let same : woken me chan i p ≡ q = Option.some-injective (woken me chan i p) q at in
    record {
      before = p;
      at = refl;
      live = woken-Live me chan i p (subst Live (sym same) live);
      same = woken_pid me chan i p ∙ ap (λ (o : Proc). o.pid) same;
    }
wakeup_from-Kept me chan i (p ∷ ps) (suc j) q at live =
    let w = wakeup_from-Kept me chan (i + 1) ps j q at live in
    record { before = w.before; at = w.at; live = w.live; same = w.same }

pub wakeup-Kept : (me chan : ℕ) (ps : List Proc) → Kept ps (wakeup me chan ps)
unfolding wakeup
wakeup-Kept me chan ps = wakeup_from-Kept me chan 0 ps

-- Process `k`, if it is in the table, is in use.
abbrev pub InUse : (k : ℕ) → List Proc → Type 0
InUse k ps = (p : Proc) → get_elem? ps k ≡ some p → Live p

wakeup_from-InUse :
    (me chan i k : ℕ) (ps : List Proc) → InUse k ps → InUse k (wakeup_from me chan i ps)
unfolding wakeup_from
wakeup_from-InUse me chan i k [] h q at = absurd (ground (arith, at))
wakeup_from-InUse me chan i zero (p ∷ ps) h q at =
    let live = h p refl in
    subst Live (Option.some-injective (woken me chan i p) q at) (ground (arith, live))
wakeup_from-InUse me chan i (suc k) (p ∷ ps) h q at = wakeup_from-InUse me chan (i + 1) k ps h q at

wakeup-InUse : (me chan k : ℕ) (ps : List Proc) → InUse k ps → InUse k (wakeup me chan ps)
unfolding wakeup
wakeup-InUse me chan k ps h = wakeup_from-InUse me chan 0 k ps h

module _ (me init : ℕ) where
  set-InUse :
      (j k : ℕ) (ps : List Proc) (p q : Proc)
      → get_elem? ps j ≡ some p
      → (Live p → Live q)
      → InUse k ps
      → InUse k (set ps j q)
  set-InUse j k ps p q at keep h r at' = elim (set_at ps j k p q r at at') [
    | inl (e, same) ↦ subst Live same (keep (h p (subst (λ i. get_elem? ps i ≡ some p) e at)))
    | inr (ne, old) ↦ h r old
  ]

  reparent_one-InUse : (j k : ℕ) (ps : List Proc) → InUse k ps → InUse k (reparent_one me init j ps)
  unfolding reparent_one
  reparent_one-InUse j k ps h = elim (Option-cases (get_elem? ps j)) [
    | inl e ↦ subst (InUse k) (ground (arith, e)) h
    | inr (p, e) ↦ elim (Bool-cases (is_child me p)) [
      | inl mine ↦
          let adopted : Proc = record p { parent = some init } in
          subst (InUse k) (ground (arith, e, mine)) (
            wakeup-InUse me (chan_of init) k (set ps j adopted)
              (set-InUse j k ps p adopted e (λ live. live) h))
      | inr other ↦ subst (InUse k) (ground (arith, e, other)) h
    ]
  ]

  reparent_from-InUse :
      (n j k : ℕ) (ps : List Proc) → InUse k ps → InUse k (reparent_from me init n j ps)
  unfolding reparent_from
  reparent_from-InUse zero j k ps h = h
  reparent_from-InUse (suc n) j k ps h =
      reparent_from-InUse n (j + 1) k (reparent_one me init j ps) (reparent_one-InUse j k ps h)

  reparent_one-Kept : (j : ℕ) (ps : List Proc) → Kept ps (reparent_one me init j ps)
  unfolding reparent_one
  reparent_one-Kept j ps = elim (Option-cases (get_elem? ps j)) [
    | inl e ↦ subst (Kept ps) (ground (arith, e)) (Kept-refl ps)
    | inr (p, e) ↦ elim (Bool-cases (is_child me p)) [
      | inl mine ↦
          let adopted : Proc = record p { parent = some init } in
          let ps' = set ps j adopted in
          subst (Kept ps) (ground (arith, e, mine)) (
            Kept-trans ps ps' (wakeup me (chan_of init) ps')
              (Kept-set ps j p adopted e (λ live. (live, refl)))
              (wakeup-Kept me (chan_of init) ps'))
      | inr other ↦ subst (Kept ps) (ground (arith, e, other)) (Kept-refl ps)
    ]
  ]

  reparent_from-Kept : (n j : ℕ) (ps : List Proc) → Kept ps (reparent_from me init n j ps)
  unfolding reparent_from
  reparent_from-Kept zero j ps = Kept-refl ps
  reparent_from-Kept (suc n) j ps =
      Kept-trans ps (reparent_one me init j ps)
        (reparent_from me init n (j + 1) (reparent_one me init j ps)) (reparent_one-Kept j ps)
        (reparent_from-Kept n (j + 1) (reparent_one me init j ps))

  reparent-Kept : (ps : List Proc) → Kept ps (reparent me init ps)
  unfolding reparent
  reparent-Kept ps = reparent_from-Kept (length ps) 0 ps

  -- A process that is in use ends.
  end_at-Kept :
      (status : ℤ) (ps : List Proc)
      → ((p : Proc) → get_elem? ps me ≡ some p → Live p)
      → Kept ps (end_at me status ps)
  end_at-Kept status ps live = elim (Option-cases (get_elem? ps me)) [
    | inl e ↦ subst (Kept ps) (ground (arith, e)) (Kept-refl ps)
    | inr (p, e) ↦
        subst (Kept ps) (ground (arith, e))
          (Kept-set ps me p (ended status p) e (λ l. (live p e, refl)))
  ]

  pub kexit-Kept :
      (status : ℤ) (ps qs : List Proc)
      → InUse me ps
      → kexit me init status ps ≡ some qs
      → Kept ps qs
  unfolding kexit reparent
  kexit-Kept status ps qs live e =
      let ps' = reparent me init ps in
      let chan = parent_chan (parent_at ps' me) in
      let woke = wakeup me chan ps' in
      let at_end : end_at me status woke ≡ qs = ground (arith, e) in
      subst (Kept ps) at_end (
        Kept-trans ps ps' (end_at me status woke) (reparent-Kept ps) (
          Kept-trans ps' woke (end_at me status woke) (wakeup-Kept me chan ps') (
            end_at-Kept status woke
              (wakeup-InUse me chan me ps' (reparent_from-InUse (length ps) 0 me ps live)))))
