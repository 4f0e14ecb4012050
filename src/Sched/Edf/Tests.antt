-- ===== src/Sched/Edf/Tests.antt =====
-- Runs of EDF on small tables.
use operating_system_lab_pro.Prelude.{
  ℕ, zero, suc, ◌≡◌, refl, List, [], ◌∷◌, Option, none, some, arith, pos,
}
use operating_system_lab_pro.Sched.Smp.{ready, Process, pick, take_turn}
use operating_system_lab_pro.Sched.Edf.{scheduled, after, run_edf}
use operating_system_lab_pro.Sched.Smp.Start.{NoneRuns}
use operating_system_lab_pro.Sched.Edf.Global.{IsEdf, after-IsEdf}

abbrev job : (id arrival_time burst_time deadline : ℕ) → Process
job id arrival_time burst_time deadline = record {
  id = id;
  arrival_time = arrival_time;
  burst_time = burst_time;
  remaining_time = pos burst_time;
  deadline = deadline;
  period = 0;
  tickets = 0;
  priority_level = 0;
  state = ready;
  completion_time = 0;
  start_time = none;
  cpu_id = none;
}

-- The third one preempts the second.
abbrev jobs : List Process
jobs = job 1 0 2 9 ∷ job 2 0 3 20 ∷ job 3 1 1 5 ∷ []

jobs-NoneRuns : NoneRuns jobs
jobs-NoneRuns zero q e r = ground arith
jobs-NoneRuns (suc zero) q e r = ground arith
jobs-NoneRuns (suc (suc zero)) q e r = ground arith
jobs-NoneRuns (suc (suc (suc j))) q e r = absurd (cc)

after-IsEdf_example : IsEdf 1 (scheduled 1 (after 1 jobs 2).0)
after-IsEdf_example = after-IsEdf 1 jobs 2 jobs-NoneRuns

abbrev completions : Option (ℕ × List Process) → List ℕ
completions none = []
completions (some (n, ps)) = times ps
  where
    times : List Process → List ℕ
    times [] = []
    times (p ∷ ps) = p.completion_time ∷ times ps

one_cpu : completions (run_edf 8 jobs 1) ≡ (3 ∷ 6 ∷ 2 ∷ [])
unfolding run_edf pick take_turn
one_cpu = refl

two_cpus : completions (run_edf 8 jobs 2) ≡ (2 ∷ 4 ∷ 2 ∷ [])
unfolding run_edf pick take_turn
two_cpus = refl
