-- ===== src/Sched/Vijay/Tests.antt =====
-- Vijay's simulators on small tables.
use operating_system_lab_pro.Prelude.{
  ℕ, zero, suc, ◌<◌, ◌≡◌, refl, List, [], ◌∷◌, Option, some, arith, get_elem?, pos, sum_by, map,
}
use operating_system_lab_pro.Sched.Vijay.Lottery.{Process, TraceEntry, lottery_scheduling}
use operating_system_lab_pro.Sched.Vijay.Lottery.Work.{total_left}
use operating_system_lab_pro.Sched.Vijay.Lottery.Ends.{AllIn, lottery_finishes}
use operating_system_lab_pro.Sched.Vijay.Rms.{rms_scheduling, release_all}
use operating_system_lab_pro.Sched.Vijay.Rms.Shortest.{Spent, rms-Spent}

abbrev job : (pid burst arrival tickets period : ℕ) → Process
job pid burst arrival tickets period = record {
  pid = pid;
  burst_time = pos burst;
  arrival_time = arrival;
  tickets = tickets;
  period = period;
  remaining_time = pos burst;
}

abbrev jobs : List Process
jobs = job 1 2 0 3 4 ∷ job 2 1 0 5 3 ∷ []

abbrev winners : List TraceEntry → List (Option ℕ)
winners trace = map (λ (e : TraceEntry). e.pid) trace

lottery_runs : winners (lottery_scheduling (λ k. 4) jobs 9).trace ≡ some 2 ∷ some 1 ∷ some 1 ∷ []
unfolding lottery_scheduling
lottery_runs = refl

-- Process 2 has the shorter period, and both are released again.
rms_runs : winners (rms_scheduling jobs 5).trace ≡ some 2 ∷ some 1 ∷ some 1 ∷ some 2 ∷ some 1 ∷ []
unfolding rms_scheduling
rms_runs = refl

jobs-AllIn : AllIn 0 jobs
jobs-AllIn zero p e = ground arith
jobs-AllIn (suc zero) p e = ground arith
jobs-AllIn (suc (suc j)) p e = absurd (cc)

jobs_left : total_left jobs ≡ 3
unfolding total_left sum_by
jobs_left = refl

lottery_finishes_example : total_left (lottery_scheduling (λ k. 4) jobs 3).procs ≡ 0
lottery_finishes_example = lottery_finishes (λ k. 4) jobs 3 jobs-AllIn (omega (arith, jobs_left))

abbrev late_job : List Process
late_job = job 1 2 5 3 4 ∷ []

late_job-late : (j : ℕ) (p : Process) → get_elem? late_job j ≡ some p → 0 < p.arrival_time
late_job-late zero p e = ground arith
late_job-late (suc j) p e = absurd (cc)

rms-Spent_example : Spent 3 (release_all 3 (rms_scheduling jobs 3)) (rms_scheduling jobs 4)
rms-Spent_example = rms-Spent jobs 3
