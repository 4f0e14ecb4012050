-- ===== src/Sched/Lottery/Draw.antt =====
-- Which process a draw chooses.
use operating_system_lab_pro.Prelude.{
  ℕ, suc, ◌+◌, ◌%◌, ◌≤◌, ◌<◌, ◌≡◌, refl, false, List, [], ◌∷◌, some, arith, get_elem?, take, ltb,
  if◌then◌else◌, Bool-cases, inl, inr, ap, ◌∙◌,
}
use operating_system_lab_pro.Sched.Lottery.{Proc, winner_from, pick_winner, count_tickets}

-- Process `w` is not done and ticket `r` is one of its own, where the tickets of the processes that
-- are not done are numbered from `sum` on, in the order of the table.
pub record Owns (ps : List Proc) (sum r w : ℕ) : Type 0 where
  pub owner : Proc
  pub at : get_elem? ps w ≡ some owner
  pub active : owner.done ≡ false
  pub from : sum + count_tickets (take w ps) ≤ r
  pub below : r < sum + count_tickets (take w ps) + owner.tickets

Owns-head :
    (p : Proc) (ps : List Proc) (sum r : ℕ)
    → p.done ≡ false
    → sum ≤ r
    → r < sum + p.tickets
    → Owns (p ∷ ps) sum r 0
unfolding count_tickets
Owns-head p ps sum r e lo hi = record {
  owner = p;
  at = refl;
  active = e;
  from = omega arith;
  below = omega arith;
}

Owns-tail :
    (p : Proc) (ps : List Proc) (sum r d : ℕ)
    → Owns ps (if p.done then sum else sum + p.tickets) r d
    → Owns (p ∷ ps) sum r (suc d)
unfolding count_tickets
Owns-tail p ps sum r d o = record {
  owner = o.owner;
  at = o.at;
  active = o.active;
  from = ground (arith, o.from);
  below = ground (arith, o.below);
}

winner_from-Owns :
    (ps : List Proc) (sum r i : ℕ)
    → sum ≤ r
    → r < sum + count_tickets ps
    → (d : ℕ) × (winner_from r sum i ps ≡ some (i + d)) × Owns ps sum r d
unfolding winner_from count_tickets
winner_from-Owns [] sum r i lo hi = absurd (omega arith)
winner_from-Owns (p ∷ ps) sum r i lo hi = elim (Bool-cases p.done) [
  | inl done ↦
      let (d, e, o) = winner_from-Owns ps sum r (i + 1) lo (ground arith) in
      (suc d, ground (arith, e), Owns-tail p ps sum r d (rw done o))
  | inr active ↦ elim (Bool-cases (ltb r (sum + p.tickets))) [
    | inl mine ↦ (0, ground arith, Owns-head p ps sum r active lo (ground arith))
    | inr other ↦
        let (d, e, o) =
          winner_from-Owns ps (sum + p.tickets) r (i + 1) (ground arith) (ground arith) in
        (suc d, ground (arith, e), Owns-tail p ps sum r d (rw active o))
  ]
]

-- If some process that is not done has a ticket, every draw has a winner: the process that owns
-- ticket `draw % total`, when the tickets of the processes that are not done are numbered in order.
pub pick_winner_total :
    (ps : List Proc) (draw : ℕ)
    → 0 < count_tickets ps
    → (w : ℕ) × (pick_winner ps (count_tickets ps) draw ≡ some w)
      × Owns ps 0 (draw % count_tickets ps) w
unfolding pick_winner
pick_winner_total ps draw h =
    let (d, e, o) = winner_from-Owns ps 0 (draw % count_tickets ps) 0 (omega arith) (omega arith) in
    (d, e ∙ ap some (omega arith), o)
