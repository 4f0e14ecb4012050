-- ===== src/Sched/Lottery/Round.antt =====
-- One round of the loop: the invariant, and the work that is left.
use mathlib.Core.Path.{subst}
use operating_system_lab_pro.Prelude.{
  ℕ_discrete, ℕ, ◌+◌, ◌≤◌, ◌<◌, ◌≡◌, ◌≢◌, sym, ap, ◌∙◌, true, false, List, [], ◌∷◌, ◌++◌, some,
  arith, length, length-append, get_elem?, get_elem?-set, get_elem?-map, set_same, map, map-set,
  set, sum_by, sum_by-set, lt_of_get_elem?, occurrences, occurrences-snoc, occurrences-le, pos,
  pos_part,
}
use operating_system_lab_pro.Sched.Lottery.{Proc, Sim, served}

-- Process number `i` of the table, when `gantt` has been drawn so far.
pub record IsFair (gantt : List ℕ) (i : ℕ) (p : Proc) : Type 0 where
  pub numbered : p.pid ≡ i + 1
  pub has_ticket : 0 < p.tickets
  pub nonneg : p.remaining ≡ pos (pos_part p.remaining)
  pub sized : p.burst ≡ pos (pos_part p.burst)
  pub waiting : p.done ≡ false → 0 < pos_part p.remaining
  pub ended :
      p.done ≡ true
      → (p.remaining ≡ pos 0) × (pos_part p.burst ≤ p.finish_time) × (p.finish_time ≤ length gantt)
  pub shares : occurrences p.pid gantt + pos_part p.remaining ≡ pos_part p.burst

pub record Inv (s : Sim) : Type 0 where
  pub clock : length s.gantt ≡ s.tick
  pub fair : (i : ℕ) (p : Proc) → get_elem? s.procs i ≡ some p → IsFair s.gantt i p

abbrev pub left : Proc → ℕ
left p = pos_part p.remaining

module _ {s : Sim} (v : Inv s) (w : ℕ) (p : Proc) (at : get_elem? s.procs w ≡ some p)
    (active : p.done ≡ false) where
  abbrev pub next : Sim
  next = record {
    procs = set s.procs w (served p s.tick);
    gantt = s.gantt ++ (p.pid ∷ []);
    tick = s.tick + 1;
  }

  served-IsFair : IsFair next.gantt w (served p s.tick)
  served-IsFair =
      let f = v.fair w p at in
      ground (
        arith,
        f,
        v.clock,
        length-append s.gantt (p.pid ∷ []),
        occurrences-snoc p.pid s.gantt p.pid,
        occurrences-le p.pid s.gantt,
      )

  other-IsFair : (i : ℕ) (q : Proc) → i ≢ w → get_elem? s.procs i ≡ some q → IsFair next.gantt i q
  other-IsFair i q ne e =
      let f = v.fair i q e in
      let g = v.fair w p at in
      ground (
        arith,
        f,
        g.numbered,
        length-append s.gantt (p.pid ∷ []),
        occurrences-snoc q.pid s.gantt p.pid,
      )

  elsewhere :
      (i : ℕ) (q : Proc) → i ≢ w → get_elem? next.procs i ≡ some q → get_elem? s.procs i ≡ some q
  elsewhere i q ne e = ground (arith, get_elem?-set s.procs w i (served p s.tick))

  at_w : (i : ℕ) (q : Proc) → i ≡ w → get_elem? next.procs i ≡ some q → IsFair next.gantt i q
  at_w i q same e =
      let here : served p s.tick ≡ q =
        ground
          (arith, get_elem?-set s.procs w i (served p s.tick), lt_of_get_elem? s.procs w p at) in
      subst (λ r. IsFair next.gantt i r) here
        (subst (λ j. IsFair next.gantt j (served p s.tick)) (sym same) served-IsFair)

  pub next-Inv : Inv next
  next-Inv = record {
    clock = omega (arith, length-append s.gantt (p.pid ∷ []), v.clock);
    fair = λ i q e. elim (ℕ_discrete i w) [
      | yes same ↦ at_w i q same e
      | no other ↦ other-IsFair i q other (elsewhere i q other e)
    ];
  }

  pub next-work : sum_by left next.procs + 1 ≡ sum_by left s.procs
  next-work = ground (arith, sum_by-set left s.procs w p (served p s.tick) at, v.fair w p at)

  pub next-bursts : map (λ q. q.burst) next.procs ≡ map (λ q. q.burst) s.procs
  next-bursts =
      map-set (λ q. q.burst) s.procs w (served p s.tick)
      ∙ set_same (map (λ q. q.burst) s.procs) w (served p s.tick).burst
          (get_elem?-map (λ q. q.burst) s.procs w p at ∙ ap some (ground arith))
