-- ===== src/Sched/Aryan/Tests.antt =====
-- Runs of Aryan's round robin and EDF on a small table.
use operating_system_lab_pro.Prelude.{
  ℕ, zero, suc, ◌≡◌, refl, List, [], ◌∷◌, Option, none, some, arith, pos, ◌<◌, get_elem?, sum_by,
}
use operating_system_lab_pro.Sched.Smp.{ready, Process, pick, start_cpus}
use operating_system_lab_pro.Sched.Smp.Tick.{tick_all}
use operating_system_lab_pro.Sched.Smp.Fill.{fill}
use operating_system_lab_pro.Sched.Smp.Every.{Every}
use operating_system_lab_pro.Sched.Smp.Policy.{scheduled, after}
use operating_system_lab_pro.Sched.Smp.Progress.{IsBusy}
use operating_system_lab_pro.Sched.Smp.Timely.{Timely}
use operating_system_lab_pro.Sched.Smp.Fresh.{IsFresh, Completes, total_burst, after-IsBusy}
use operating_system_lab_pro.Sched.Aryan.RoundRobin.{round_robin, run_custom_rr}
use operating_system_lab_pro.Sched.Aryan.RoundRobin.Finishes.{
  AnyProcess, round_robin-IsFinite, run_custom_rr-Completes,
}
use operating_system_lab_pro.Sched.Aryan.Deadline.{run_edf}
use operating_system_lab_pro.Sched.Aryan.Deadline.Finishes.{HasDeadline, run_edf-Completes}

abbrev job : (id arrival_time burst_time deadline : ℕ) → Process
job id arrival_time burst_time deadline = record {
  id = id;
  arrival_time = arrival_time;
  burst_time = burst_time;
  remaining_time = pos burst_time;
  deadline = deadline;
  period = 0;
  tickets = 0;
  priority_level = 0;
  state = ready;
  completion_time = 0;
  start_time = none;
  cpu_id = none;
}

abbrev jobs : List Process
jobs = job 1 0 3 9 ∷ job 2 1 2 5 ∷ []

abbrev completions : Option (ℕ × List Process) → List ℕ
completions none = []
completions (some (n, ps)) = times ps
  where
    times : List Process → List ℕ
    times [] = []
    times (p ∷ ps) = p.completion_time ∷ times ps

-- With one CPU and a quantum of 1 the first process, of the lower index, always goes first.
rr_runs : completions (run_custom_rr (pos 1) 8 jobs 1) ≡ 3 ∷ 5 ∷ []
unfolding run_custom_rr tick_all fill start_cpus
rr_runs = refl

edf_runs : completions (run_edf 8 jobs 1) ≡ 3 ∷ 5 ∷ []
unfolding run_edf pick tick_all fill start_cpus
edf_runs = refl

jobs-IsFresh : Every (IsFresh AnyProcess 1) jobs
jobs-IsFresh zero p e = record {
  is_ready = ground arith;
  whole = ground arith;
  positive = ground arith;
  arrives = ground arith;
  extra = tt;
}
jobs-IsFresh (suc zero) p e = record {
  is_ready = ground arith;
  whole = ground arith;
  positive = ground arith;
  arrives = ground arith;
  extra = tt;
}
jobs-IsFresh (suc (suc j)) p e = absurd (cc)

jobs-early : (j : ℕ) (p : Process) → get_elem? jobs j ≡ some p → p.deadline < 100000
jobs-early zero p e = ground arith
jobs-early (suc zero) p e = ground arith
jobs-early (suc (suc j)) p e = absurd (cc)

jobs-HasDeadline : Every (IsFresh HasDeadline 1) jobs
jobs-HasDeadline j p e =
    let f = jobs-IsFresh j p e in
    record {
      is_ready = f.is_ready;
      whole = f.whole;
      positive = f.positive;
      arrives = f.arrives;
      extra = jobs-early j p e;
    }

jobs-total : total_burst jobs ≡ 5
unfolding total_burst sum_by
jobs-total = refl

run_custom_rr-Completes_example : Completes 2 (run_custom_rr (pos 1) 8 jobs 1)
run_custom_rr-Completes_example =
    run_custom_rr-Completes 1 (pos 1) 8 jobs 1 jobs-IsFresh (omega arith)
      (omega (arith, jobs-total))

run_edf-Completes_example : Completes 2 (run_edf 8 jobs 1)
run_edf-Completes_example =
    run_edf-Completes 1 8 jobs 1 jobs-HasDeadline (omega arith) (omega (arith, jobs-total))

after-IsBusy_example :
    IsBusy AnyProcess
      (Timely AnyProcess 1)
      1
      (round_robin (pos 1))
      (round_robin-IsFinite 1 (pos 1))
      2
      (scheduled (round_robin (pos 1)) 2 (after (round_robin (pos 1)) 2 jobs 1)).0
after-IsBusy_example =
    after-IsBusy AnyProcess 1 AnyProcess (round_robin (pos 1)) (round_robin-IsFinite 1 (pos 1)) jobs
      1 jobs-IsFresh 2
