-- ===== src/Sched/Smp/Start.antt =====
-- The machine at the start of a run, and two facts about CPUs that agree with the processes.
use operating_system_lab_pro.Prelude.{
  ℕ, zero, suc, ◌<◌, ◌≡◌, ◌≢◌, refl, sym, ap, ◌∙◌, List, some, arith, length, get_elem?, get_or,
  get_or_beyond, dec_lt,
}
use operating_system_lab_pro.Sched.Smp.{
  running, Process, Cpu, Machine, idle_cpu, cpu_at, start_cpus,
}
use operating_system_lab_pro.Sched.Smp.Consistent.{Consistent}

pub apart_lem :
    (s : Machine)
    → Consistent s
    → (i k r : ℕ) → (cpu_at s i).current ≡ some r
    → (cpu_at s k).current ≡ some r
    → i ≡ k
apart_lem s c i k r e e' =
    let a = c.running_of_cpu i r e in
    let b = c.running_of_cpu k r e' in ground (arith, a.at, a.on, b.at, b.on)

pub lt_of_busy : (s : Machine) (i r : ℕ) → (cpu_at s i).current ≡ some r → i < length s.cpus
lt_of_busy s i r e = elim (dec_lt i (length s.cpus)) [
  | yes lt ↦ lt
  | no ge ↦
      absurd
        (cc (sym (ap (λ (c : Cpu). c.current) (get_or_beyond s.cpus i idle_cpu (omega arith))) ∙ e))
]

start_idle : (n i : ℕ) → get_or (start_cpus n) i idle_cpu ≡ idle_cpu
unfolding start_cpus
start_idle zero i = refl
start_idle (suc n) zero = refl
start_idle (suc n) (suc i) = start_idle n i

-- No process runs yet.
abbrev pub NoneRuns : List Process → Type 0
NoneRuns p = (j : ℕ) (q : Process) → get_elem? p j ≡ some q → q.state ≢ running

pub start-Consistent :
    (p : List Process) (cpus : ℕ)
    → NoneRuns p
    → Consistent (record { procs = p; cpus = start_cpus cpus })
start-Consistent p cpus h = record {
  running_of_cpu = λ i r e. absurd (cc (ap (λ (c : Cpu). c.current) (start_idle cpus i), e));
  cpu_of_running = λ j q e run. absurd (h j q e run);
}
