-- ===== src/Sched/Mlfq/Levels.antt =====
-- In every cycle of a run the CPUs have processes of the highest levels.
use operating_system_lab_pro.Prelude.{
  ℕ, ◌≤◌, ◌<◌, ◌≡◌, ◌≢◌, true, List, none, some, arith, length, get_elem?,
}
use operating_system_lab_pro.Sched.Smp.{Process, Machine, eligible, cpu_at}
use operating_system_lab_pro.Sched.Smp.Start.{NoneRuns, apart_lem, lt_of_busy}
use operating_system_lab_pro.Sched.Mlfq.{scheduled, after}
use operating_system_lab_pro.Sched.Mlfq.Inv.{Inv, scheduled-Ranked, scheduled-levelled, after-Inv}

-- What MLFQ promises of the machine `s` in cycle `now`.
pub record IsMlfq (now : ℕ) (s : Machine) : Type 0 where
  -- A process that runs is on one CPU alone.
  pub apart : (i k r : ℕ) → (cpu_at s i).current ≡ some r → (cpu_at s k).current ≡ some r → i ≡ k
  -- No process that waits is on a higher level than a process that runs; level 0 is the highest.
  pub highest :
      (i r j : ℕ) (p q : Process)
      → (cpu_at s i).current ≡ some r
      → get_elem? s.procs r ≡ some p
      → get_elem? s.procs j ≡ some q
      → eligible now q ≡ true
      → p.priority_level ≤ q.priority_level
  -- No process waits while a CPU is idle.
  pub none_idle :
      (i j : ℕ) (q : Process)
      → i < length s.cpus
      → (cpu_at s i).current ≡ none
      → get_elem? s.procs j ≡ some q
      → eligible now q ≢ true

scheduled-IsMlfq : (now : ℕ) (s : Machine) → Inv s → IsMlfq now (scheduled now s)
scheduled-IsMlfq now s v =
    let w = scheduled-Ranked now s v in
    let h = scheduled-levelled now s v in
    record {
      apart = apart_lem (scheduled now s) w.consistent;
      highest = λ i r j p q e1 e2 e3 e4.
          (w.best i (lt_of_busy (scheduled now s) i r e1)).least r p j q e1 e2 e3 e4 (h j q e3);
      none_idle = λ i j q lt e1 e2 e3. omega (arith, w.full i lt e1 j q e2 e3, h j q e2);
    }

-- In every cycle `n` of a run of MLFQ, from a table where nobody runs yet, after the boost and after
-- the CPUs have had their turns: no process is on two CPUs, no waiting process that has arrived is on a
-- higher level than a process that runs, and none of these waits while a CPU is idle.
pub after-IsMlfq :
    (n : ℕ) (p : List Process) (cpus : ℕ) → NoneRuns p → IsMlfq n (scheduled n (after n p cpus).0)
after-IsMlfq n p cpus h = scheduled-IsMlfq n (after n p cpus).0 (after-Inv n p cpus h)
