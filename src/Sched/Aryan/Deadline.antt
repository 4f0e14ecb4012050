-- ===== src/Sched/Aryan/Deadline.antt =====
-- Aryan/src/algorithms.c, `run_edf`: earliest deadline first, but a process keeps its CPU to its end.
pub mod Finishes
use operating_system_lab_pro.Prelude.{
  ℕ, suc, ◌+◌, List, Option, none, if◌then◌else◌, ℤ, pos, eq_ℤ, dec_ℤ,
}
use operating_system_lab_pro.Sched.Smp.{finished, Process, Cpu, pick}
use operating_system_lab_pro.Sched.Smp.Tick.{Fate, goes_on, ends}
use operating_system_lab_pro.Sched.Smp.Policy.{Policy, run}

-- `1e5`: a deadline from here on is never chosen.
abbrev pub no_deadline : ℕ
no_deadline = 100000

-- The loop over `p`, which keeps the earliest deadline, is that of `pick_earliest_deadline`.
unfoldable pub edf_choice : (now draws : ℕ) → List Process → Option ℕ × ℕ
edf_choice now draws ps = (pick (λ p. p.deadline) no_deadline now ps, draws)

unfoldable pub edf_fate : (now : ℕ) → Process → Cpu → Fate
edf_fate now p c =
    let left = dec_ℤ p.remaining_time in
    if eq_ℤ left (pos 0)
    then ends (record p { remaining_time = left; state = finished; completion_time = now + 1 })
        (record c { current = none })
    else goes_on (record p { remaining_time = left }) c

-- `time_quantum_left` is not used.
unfoldable pub edf : Policy
unfolding edf_choice edf_fate
edf = record { choose = edf_choice; quantum = λ p left. left; fate = edf_fate }

unfoldable pub run_edf : (fuel : ℕ) → List Process → (cpus : ℕ) → Option (ℕ × List Process)
unfolding edf run
run_edf = run edf
