-- ===== src/Sched/Mlfq/Tests.antt =====
-- Runs of MLFQ on small tables.
use operating_system_lab_pro.Prelude.{
  ℕ, zero, suc, ◌≡◌, refl, List, [], ◌∷◌, Option, none, some, arith, pos,
}
use operating_system_lab_pro.Sched.Smp.{ready, Process, pick, take_turn}
use operating_system_lab_pro.Sched.Smp.Start.{NoneRuns}
use operating_system_lab_pro.Sched.Smp.Assign.{assign, one_turn}
use operating_system_lab_pro.Sched.Mlfq.{scheduled, after, run_mlfq}
use operating_system_lab_pro.Sched.Mlfq.Levels.{IsMlfq, after-IsMlfq}

abbrev job : (id arrival_time burst_time : ℕ) → Process
job id arrival_time burst_time = record {
  id = id;
  arrival_time = arrival_time;
  burst_time = burst_time;
  remaining_time = pos burst_time;
  deadline = 0;
  period = 0;
  tickets = 0;
  priority_level = 2;
  state = ready;
  completion_time = 0;
  start_time = none;
  cpu_id = none;
}

abbrev jobs : List Process
jobs = job 1 0 6 ∷ job 2 1 2 ∷ []

jobs-NoneRuns : NoneRuns jobs
jobs-NoneRuns zero q e r = ground arith
jobs-NoneRuns (suc zero) q e r = ground arith
jobs-NoneRuns (suc (suc j)) q e r = absurd (cc)

after-IsMlfq_example : IsMlfq 5 (scheduled 5 (after 5 jobs 1).0)
after-IsMlfq_example = after-IsMlfq 5 jobs 1 jobs-NoneRuns

abbrev completions : Option (ℕ × List Process) → List ℕ
completions none = []
completions (some (n, ps)) = times ps
  where
    times : List Process → List ℕ
    times [] = []
    times (p ∷ ps) = p.completion_time ∷ times ps

-- The first process loses the CPU after 4 ticks to the second one.
one_cpu : completions (run_mlfq 10 jobs 1) ≡ (8 ∷ 6 ∷ [])
unfolding run_mlfq pick take_turn assign one_turn
one_cpu = refl
