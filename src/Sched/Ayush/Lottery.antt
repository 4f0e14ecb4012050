-- ===== src/Sched/Ayush/Lottery.antt =====
-- Ayush/src/algorithms.c, `run_lottery`. `rand()` is a sequence of numbers, of which each draw reads the
-- next.
pub mod Finishes
use operating_system_lab_pro.Prelude.{
  ℕ, zero, suc, ◌+◌, ◌%◌, List, [], ◌∷◌, Option, none, some, leb, ◌==◌, if◌then◌else◌, ℤ, pos, eq_ℤ,
  dec_ℤ,
}
use operating_system_lab_pro.Sched.Smp.{ready, finished, Process, Cpu, eligible}
use operating_system_lab_pro.Sched.Smp.Tick.{Fate, goes_on, gives_way, ends}
use operating_system_lab_pro.Sched.Smp.Policy.{Policy, run}

-- The tickets of all processes that are READY and have arrived.
unfoldable pub total_tickets : (now : ℕ) → List Process → ℕ
total_tickets now [] = 0
total_tickets now (p ∷ ps) = (if eligible now p then p.tickets else 0) + total_tickets now ps

-- The loop that looks for the winner, from index `i` on.
unfoldable pub owner_from : (now winner cumulative i : ℕ) → List Process → Option ℕ
owner_from now winner cumulative i [] = none
owner_from now winner cumulative i (p ∷ ps) =
    let cumulative' = if eligible now p then cumulative + p.tickets else cumulative in
    let rest = owner_from now winner cumulative' (i + 1) ps in
    if eligible now p then if leb winner cumulative' then some i else rest else rest

unfoldable pub lottery_fate : (now : ℕ) → Process → Cpu → Fate
lottery_fate now p c =
    let left = dec_ℤ p.remaining_time in
    let quantum = dec_ℤ c.quantum_left in
    if eq_ℤ left (pos 0)
    then ends (record p { remaining_time = left; state = finished; completion_time = now + 1 })
        (record { current = none; quantum_left = quantum })
    else if eq_ℤ quantum (pos 0)
    then gives_way (record p { remaining_time = left; state = ready })
        (record { current = none; quantum_left = quantum })
    else goes_on (record p { remaining_time = left }) (record c { quantum_left = quantum })

module _ (rand : ℕ → ℕ) where
  unfoldable pub lottery_choice : (now draws : ℕ) → List Process → Option ℕ × ℕ
  unfolding total_tickets owner_from
  lottery_choice now draws ps =
      if total_tickets now ps == 0
      then (none, draws)
      else (owner_from now (rand draws % total_tickets now ps + 1) 0 0 ps, draws + 1)

  unfoldable pub lottery : Policy
  unfolding lottery_choice lottery_fate
  lottery = record { choose = lottery_choice; quantum = λ p left. pos 4; fate = lottery_fate }

  unfoldable pub run_lottery : (fuel : ℕ) → List Process → (cpus : ℕ) → Option (ℕ × List Process)
  unfolding lottery run
  run_lottery = run lottery
