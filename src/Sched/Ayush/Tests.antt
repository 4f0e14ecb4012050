-- ===== src/Sched/Ayush/Tests.antt =====
-- Runs of Ayush's lottery on a small table.
use operating_system_lab_pro.Prelude.{
  ℕ, zero, suc, ◌≡◌, refl, List, [], ◌∷◌, Option, none, some, arith, pos, sum_by,
}
use operating_system_lab_pro.Sched.Smp.{ready, Process, start_cpus}
use operating_system_lab_pro.Sched.Smp.Tick.{tick_all}
use operating_system_lab_pro.Sched.Smp.Fill.{fill}
use operating_system_lab_pro.Sched.Smp.Every.{Every}
use operating_system_lab_pro.Sched.Smp.Fresh.{IsFresh, Completes, total_burst}
use operating_system_lab_pro.Sched.Ayush.Lottery.{run_lottery}
use operating_system_lab_pro.Sched.Ayush.Lottery.Finishes.{HasTickets, run_lottery-Completes}

abbrev job : (id arrival_time burst_time tickets : ℕ) → Process
job id arrival_time burst_time tickets = record {
  id = id;
  arrival_time = arrival_time;
  burst_time = burst_time;
  remaining_time = pos burst_time;
  deadline = 0;
  period = 0;
  tickets = tickets;
  priority_level = 0;
  state = ready;
  completion_time = 0;
  start_time = none;
  cpu_id = none;
}

abbrev jobs : List Process
jobs = job 1 0 3 9 ∷ job 2 1 2 5 ∷ []

abbrev completions : Option (ℕ × List Process) → List ℕ
completions none = []
completions (some (n, ps)) = times ps
  where
    times : List Process → List ℕ
    times [] = []
    times (p ∷ ps) = p.completion_time ∷ times ps

lottery_runs : completions (run_lottery (λ k. k) 8 jobs 1) ≡ 3 ∷ 5 ∷ []
unfolding run_lottery tick_all fill start_cpus
lottery_runs = refl

jobs-IsFresh : Every (IsFresh HasTickets 1) jobs
jobs-IsFresh zero p e = record {
  is_ready = ground arith;
  whole = ground arith;
  positive = ground arith;
  arrives = ground arith;
  extra = ground arith;
}
jobs-IsFresh (suc zero) p e = record {
  is_ready = ground arith;
  whole = ground arith;
  positive = ground arith;
  arrives = ground arith;
  extra = ground arith;
}
jobs-IsFresh (suc (suc j)) p e = absurd (cc)

jobs-total : total_burst jobs ≡ 5
unfolding total_burst sum_by
jobs-total = refl

run_lottery-Completes_example : Completes 2 (run_lottery (λ k. k) 8 jobs 1)
run_lottery-Completes_example =
    run_lottery-Completes (λ k. k) 1 8 jobs 1 jobs-IsFresh (omega arith) (omega (arith, jobs-total))
