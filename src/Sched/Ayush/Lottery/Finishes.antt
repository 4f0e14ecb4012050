-- ===== src/Sched/Ayush/Lottery/Finishes.antt =====
-- A run of the lottery ends, whatever `rand` returns.
use operating_system_lab_pro.Prelude.{
  ℕ, zero, suc, ◌+◌, ◌<◌, ◌≤◌, ◌≢◌, ◌%◌, ℕ_discrete, ◌≡◌, refl, ap, ◌∙◌, true, List, [], ◌∷◌, none,
  some, arith, get_elem?, length, leb, pos, eq_ℤ, dec_ℤ, Bool-cases, inl, inr,
}
use operating_system_lab_pro.Sched.Smp.{running, ready, finished, Process, Cpu, eligible}
use operating_system_lab_pro.Sched.Smp.Every.{Every}
use operating_system_lab_pro.Sched.Smp.Fill.{IsChoice}
use operating_system_lab_pro.Sched.Smp.Tick.{IsFair, on, back, over}
use operating_system_lab_pro.Sched.Smp.Progress.{IsFinite}
use operating_system_lab_pro.Sched.Smp.Timely.{
  Timely, Timely-later, Timely-started, Timely-works, Timely-yields, Timely-ends, work-works,
  work-yields, work-ends,
}
use operating_system_lab_pro.Sched.Smp.Fresh.{IsFresh, Completes, total_burst, run-Completes}
use operating_system_lab_pro.Sched.Ayush.Lottery.{
  total_tickets, owner_from, lottery_choice, lottery_fate, lottery, run_lottery,
}

abbrev pub HasTickets : Process → Type 0
HasTickets p = 0 < p.tickets

owner_from-some :
    (now winner cumulative i : ℕ) (ps : List Process) (b : ℕ)
    → owner_from now winner cumulative i ps ≡ some b
    → (d : ℕ) × (b ≡ i + d) × (p : Process) × (get_elem? ps d ≡ some p) × (eligible now p ≡ true)
unfolding owner_from
owner_from-some now winner cumulative i [] b e = absurd (cc)
owner_from-some now winner cumulative i (p ∷ ps) b e = elim (Bool-cases (eligible now p)) [
  | inl fit ↦ elim (Bool-cases (leb winner (cumulative + p.tickets))) [
    | inl reached ↦ (0, ground arith, p, refl, fit)
    | inr short ↦
        let (d, eq, q, at, fit') =
          owner_from-some now winner (cumulative + p.tickets) (i + 1) ps b (ground arith) in
        (suc d, omega arith, q, at, fit')
  ]
  | inr not_fit ↦
      let (d, eq, q, at, fit) = owner_from-some now winner cumulative (i + 1) ps b (ground arith) in
      (suc d, omega arith, q, at, fit)
]

owner_from_total :
    (now winner cumulative i : ℕ) (ps : List Process)
    → cumulative < winner
    → winner ≤ cumulative + total_tickets now ps
    → owner_from now winner cumulative i ps ≢ none
unfolding owner_from total_tickets
owner_from_total now winner cumulative i [] lo hi e = absurd (omega arith)
owner_from_total now winner cumulative i (p ∷ ps) lo hi e = elim (Bool-cases (eligible now p)) [
  | inl fit ↦ elim (Bool-cases (leb winner (cumulative + p.tickets))) [
    | inl reached ↦ absurd (ground arith)
    | inr short ↦
        owner_from_total now winner (cumulative + p.tickets) (i + 1) ps (ground arith)
          (ground arith) (ground arith)
  ]
  | inr not_fit ↦ owner_from_total now winner cumulative (i + 1) ps lo (ground arith) (ground arith)
]

total_tickets-le :
    (now : ℕ) (ps : List Process) (j : ℕ) (q : Process)
    → get_elem? ps j ≡ some q
    → eligible now q ≡ true
    → q.tickets ≤ total_tickets now ps
unfolding total_tickets
total_tickets-le now [] j q at fit = absurd (cc)
total_tickets-le now (p ∷ ps) zero q at fit = ground arith
total_tickets-le now (p ∷ ps) (suc j) q at fit = omega (arith, total_tickets-le now ps j q at fit)

module _ (rand : ℕ → ℕ) where
  choice_found :
      (now draws : ℕ) (ps : List Process) (b : ℕ)
      → (lottery_choice rand now draws ps).0 ≡ some b
      → owner_from now (rand draws % total_tickets now ps + 1) 0 0 ps ≡ some b
  unfolding lottery_choice
  choice_found now draws ps b e = ground arith

  choice_none :
      (now draws : ℕ) (ps : List Process)
      → (lottery_choice rand now draws ps).0 ≡ none
      → total_tickets now ps ≡ 0
  unfolding lottery_choice
  choice_none now draws ps e = elim (ℕ_discrete (total_tickets now ps) 0) [
    | yes none_left ↦ none_left
    | no some! ↦
        let small : rand draws % total_tickets now ps < total_tickets now ps = grind arith in
        absurd (
          owner_from_total now (rand draws % total_tickets now ps + 1) 0 0 ps (omega arith)
            (omega arith) (ground arith))
  ]

  lottery_choice-IsChoice : IsChoice HasTickets (lottery_choice rand)
  lottery_choice-IsChoice = record {
    sound = λ now draws ps b e.
        let (d, eq, p, at, fit) =
          owner_from-some now (rand draws % total_tickets now ps + 1) 0 0 ps b
            (choice_found now draws ps b e) in
        let same : b ≡ d = omega arith in (p, ap (get_elem? ps) same ∙ at, fit);
    complete = λ now draws ps j q e at fit has.
        omega (arith, choice_none now draws ps e, total_tickets-le now ps j q at fit);
  }

  module _ (last : ℕ) where
    lottery_fate-IsFair :
        (now : ℕ) (p : Process) (c : Cpu)
        → Timely HasTickets last now p
        → p.state ≡ running
        → IsFair (Timely HasTickets last) now p c (lottery_fate now p c)
    unfolding lottery_fate
    lottery_fate-IsFair now p c v r = elim (Bool-cases (eq_ℤ (dec_ℤ p.remaining_time) (pos 0))) [
      | inl e ↦
          over
            (record p {
              remaining_time = dec_ℤ p.remaining_time;
              state = finished;
              completion_time = now + 1;
            })
            (record { current = none; quantum_left = dec_ℤ c.quantum_left }) (ground arith) refl
            refl (Timely-ends HasTickets last now p v r e v.extra)
            (work-ends HasTickets last now p v r e)
      | inr e ↦ elim (Bool-cases (eq_ℤ (dec_ℤ c.quantum_left) (pos 0))) [
        | inl q ↦
            back (record p { remaining_time = dec_ℤ p.remaining_time; state = ready })
              (record { current = none; quantum_left = dec_ℤ c.quantum_left }) (ground arith) refl
              refl (Timely-yields HasTickets last now p v r e v.extra)
              (work-yields HasTickets last now p v r e)
        | inr q ↦
            on (record p { remaining_time = dec_ℤ p.remaining_time })
              (record c { quantum_left = dec_ℤ c.quantum_left }) (ground arith) r refl refl
              (Timely-works HasTickets last now p v r e v.extra)
              (work-works HasTickets last now p v r e)
      ]
    ]

    pub lottery-IsFinite : IsFinite HasTickets (Timely HasTickets last) last (lottery rand)
    unfolding lottery
    lottery-IsFinite = record {
      good = lottery_choice-IsChoice;
      law = record { later = Timely-later HasTickets last; fair = lottery_fate-IsFair };
      starts = λ now p i fit v. Timely-started HasTickets last now p v i fit v.extra;
      wanted = λ now p v. v.extra;
      arrives = λ now p v. v.arrives;
    }

-- From a fresh table whose processes arrive at `last` or before and have tickets, on one CPU or more, a
-- run of the lottery ends within `last` and the sum of the bursts, whatever `rand` returns; at its end
-- each process has finished, not before its burst has passed since its arrival.
pub run_lottery-Completes :
    (rand : ℕ → ℕ) (last fuel : ℕ) (ps : List Process) (cpus : ℕ)
    → Every (IsFresh HasTickets last) ps
    → 0 < cpus
    → last + total_burst ps < fuel
    → Completes (length ps) (run_lottery rand fuel ps cpus)
unfolding run_lottery
run_lottery-Completes rand last fuel ps cpus fresh some_cpu enough =
    run-Completes HasTickets last HasTickets (lottery rand) (lottery-IsFinite rand last) ps cpus
      fresh fuel some_cpu enough
