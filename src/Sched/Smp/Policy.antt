-- ===== src/Sched/Smp/Policy.antt =====
-- The loop of the simulators without preemption, for a policy: which process an idle CPU takes, what
-- time it gets, and what becomes of it after a tick.
use operating_system_lab_pro.Prelude.{
  ℕ, zero, suc, ◌+◌, List, Option, none, some, length, ltb, if◌then◌else◌, ℤ,
}
use operating_system_lab_pro.Sched.Smp.{Process, Cpu, Machine, start_cpus}
use operating_system_lab_pro.Sched.Smp.Fill.{Choice, fill}
use operating_system_lab_pro.Sched.Smp.Tick.{Fate, tick_all}

pub record Policy : Type 0 where
  pub choose : Choice
  pub quantum : Process → ℤ → ℤ
  pub fate : (now : ℕ) → Process → Cpu → Fate

-- What the loop keeps: the arrays, the random numbers drawn, and the number of finished processes.
pub record Run : Type 0 where
  pub machine : Machine
  pub draws : ℕ
  pub count : ℕ

-- The processes on their CPUs in cycle `now`.
unfoldable pub scheduled : Policy → (now : ℕ) → Run → Machine × ℕ
scheduled pol now u = fill pol.choose pol.quantum now (length u.machine.cpus) 0 u.machine u.draws

-- The body of the while loop.
unfoldable pub cycle : Policy → (now : ℕ) → Run → Run
unfolding scheduled
cycle pol now u =
    let (s, draws) = scheduled pol now u in
    let (t, count) = tick_all (pol.fate now) (length s.cpus) 0 s u.count in
    record { machine = t; draws = draws; count = count }

-- The while loop, on fuel: the number of cycles and the processes at its end.
unfoldable pub run_loop : Policy → (fuel now : ℕ) → Run → Option (ℕ × List Process)
unfolding cycle
run_loop pol zero now u = none
run_loop pol (suc fuel) now u =
    let rest = run_loop pol fuel (now + 1) (cycle pol now u) in
    if ltb u.count (length u.machine.procs) then rest else some (now, u.machine.procs)

unfoldable pub start : List Process → (cpus : ℕ) → Run
start p cpus = record {
  machine = record { procs = p; cpus = start_cpus cpus };
  draws = 0;
  count = 0;
}

unfoldable pub run : Policy → (fuel : ℕ) → List Process → (cpus : ℕ) → Option (ℕ × List Process)
unfolding run_loop start
run pol fuel p cpus = run_loop pol fuel 0 (start p cpus)

-- The state after `n` cycles.
unfoldable pub after : Policy → (n : ℕ) → List Process → (cpus : ℕ) → Run
unfolding cycle start
after pol zero p cpus = start p cpus
after pol (suc n) p cpus = cycle pol n (after pol n p cpus)
