-- ===== src/Sched/Aryan/RoundRobin.antt =====
-- Aryan/src/algorithms.c, `run_custom_rr`; `time_quantum` is what `scanf` reads.
pub mod Finishes
use operating_system_lab_pro.Prelude.{
  ℕ, zero, suc, ◌+◌, ◌&&◌, List, [], ◌∷◌, Option, none, some, leb, if◌then◌else◌, ℤ, pos, eq_ℤ,
  dec_ℤ,
}
use operating_system_lab_pro.Sched.Smp.{State, ready, finished, Process, Cpu, Machine, eligible}
use operating_system_lab_pro.Sched.Smp.Tick.{Fate, goes_on, gives_way, ends}
use operating_system_lab_pro.Sched.Smp.Policy.{Policy, Run, run, after}

-- The loop over `p`, from index `i` on: the first process that is READY and has arrived.
unfoldable pub first_ready : (now i : ℕ) → List Process → Option ℕ
first_ready now i [] = none
first_ready now i (p ∷ ps) =
    let rest = first_ready now (i + 1) ps in if eligible now p then some i else rest

abbrev pub rr_choice : (now draws : ℕ) → List Process → Option ℕ × ℕ
rr_choice now draws ps = (first_ready now 0 ps, draws)

-- The tick of a process on its CPU.
unfoldable pub rr_fate : (now : ℕ) → Process → Cpu → Fate
rr_fate now p c =
    let left = dec_ℤ p.remaining_time in
    let quantum = dec_ℤ c.quantum_left in
    if eq_ℤ left (pos 0)
    then ends (record p { remaining_time = left; state = finished; completion_time = now + 1 })
        (record { current = none; quantum_left = quantum })
    else if eq_ℤ quantum (pos 0)
    then gives_way (record p { remaining_time = left; state = ready })
        (record { current = none; quantum_left = quantum })
    else goes_on (record p { remaining_time = left }) (record c { quantum_left = quantum })

unfoldable pub round_robin : (time_quantum : ℤ) → Policy
unfolding first_ready rr_fate
round_robin time_quantum = record {
  choose = rr_choice;
  quantum = λ p left. time_quantum;
  fate = rr_fate;
}

unfoldable pub run_custom_rr :
    (time_quantum : ℤ) → (fuel : ℕ) → List Process → (cpus : ℕ) → Option (ℕ × List Process)
unfolding round_robin run
run_custom_rr time_quantum = run (round_robin time_quantum)
