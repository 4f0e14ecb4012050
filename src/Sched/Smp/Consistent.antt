-- ===== src/Sched/Smp/Consistent.antt =====
-- What holds of the processes and the CPUs between two steps.
use operating_system_lab_pro.Prelude.{ℕ, ◌≤◌, ◌<◌, ◌≡◌, true, some, length, get_elem?}
use operating_system_lab_pro.Sched.Smp.{running, Process, Machine, eligible, cpu_at}

-- CPU `i` runs process `r`, which knows it.
pub record Runs (s : Machine) (i r : ℕ) : Type 0 where
  pub proc : Process
  pub at : get_elem? s.procs r ≡ some proc
  pub is_running : proc.state ≡ running
  pub on : proc.cpu_id ≡ some i

-- The process at `j` is on a CPU, which runs it.
pub record Placed (s : Machine) (j : ℕ) (p : Process) : Type 0 where
  pub cpu : ℕ
  pub exists : cpu < length s.cpus
  pub knows : p.cpu_id ≡ some cpu
  pub runs : (cpu_at s cpu).current ≡ some j

pub record Consistent (s : Machine) : Type 0 where
  pub running_of_cpu : (i r : ℕ) → (cpu_at s i).current ≡ some r → Runs s i r
  pub cpu_of_running :
      (j : ℕ) (p : Process) → get_elem? s.procs j ≡ some p → p.state ≡ running → Placed s j p

-- CPU `i` has nothing to run, or nobody who waits at time `now` has a key below that of its process;
-- keys from `bound` on, which are never chosen, do not count.
pub record Dominates (key : Process → ℕ) (bound now : ℕ) (s : Machine) (i : ℕ) : Type 0 where
  pub least :
      (r : ℕ) (p : Process) (j : ℕ) (q : Process)
      → (cpu_at s i).current ≡ some r
      → get_elem? s.procs r ≡ some p
      → get_elem? s.procs j ≡ some q
      → eligible now q ≡ true
      → key q < bound
      → key p ≤ key q
