-- ===== src/Sched/Smp/Dispatch.antt =====
-- An idle CPU starts a process.
use operating_system_lab_pro.Prelude.{
  ℕ, ◌≤◌, ◌<◌, ◌≡◌, ◌≢◌, refl, ap, true, none, some, arith, length, length-set, get_elem?,
  get_elem?-set, lt_of_get_elem?, get_or-set, ltb, ◌==◌, if◌then◌else◌, ◌&&◌, ℤ, ℕ_discrete,
}
use operating_system_lab_pro.Sched.Smp.{
  running, Process, Machine, eligible, started, idle_cpu, cpu_at, dispatch,
}
use operating_system_lab_pro.Sched.Smp.Consistent.{Runs, Placed, Consistent, Dominates}

module _ {s : Machine} (c : Consistent s) (i : ℕ) (lt : i < length s.cpus) where
  module _ (b now : ℕ) (p : Process) (quantum : Process → ℤ → ℤ)
      (free : (cpu_at s i).current ≡ none) (at : get_elem? s.procs b ≡ some p)
      (fit : eligible now p ≡ true) where
    abbrev s' : Machine
    s' = dispatch quantum now s i b p

    procs-at :
        (j : ℕ)
        → get_elem? s'.procs j ≡ (
            if b == j && ltb b (length s.procs)
            then some (started p i now)
            else get_elem? s.procs j)
    procs-at j = get_elem?-set s.procs b j (started p i now)

    cpus-at :
        (j : ℕ)
        → cpu_at s' j ≡ (
            if i == j && ltb i (length s.cpus)
            then record { current = some b; quantum_left = quantum p (cpu_at s i).quantum_left }
            else cpu_at s j)
    cpus-at j =
        get_or-set s.cpus i j
          (record { current = some b; quantum_left = quantum p (cpu_at s i).quantum_left }) idle_cpu

    dispatch-Runs : (j r : ℕ) → (cpu_at s' j).current ≡ some r → Runs s' j r
    dispatch-Runs j r e = elim (ℕ_discrete i j) [
      | yes same ↦ record {
        proc = started p i now;
        at = ground (arith, procs-at r, cpus-at j, lt_of_get_elem? s.procs b p at);
        is_running = refl;
        on = ap some same;
      }
      | no other ↦
          let old = c.running_of_cpu j r (ground (arith, cpus-at j)) in
          record {
            proc = old.proc;
            at = ground (arith, procs-at r, old.at, old.is_running);
            is_running = old.is_running;
            on = old.on;
          }
    ]

    dispatch-Placed :
        (j : ℕ) (q : Process) → get_elem? s'.procs j ≡ some q → q.state ≡ running → Placed s' j q
    dispatch-Placed j q e run = elim (ℕ_discrete b j) [
      | yes same ↦ record {
        cpu = i;
        exists = omega (
          arith,
          length-set s.cpus i
              (record { current = some b; quantum_left = quantum p (cpu_at s i).quantum_left }),
        );
        knows = ground (arith, procs-at j, lt_of_get_elem? s.procs b p at);
        runs = ground (arith, cpus-at i);
      }
      | no other ↦
          let old = c.cpu_of_running j q (ground (arith, procs-at j)) run in
          record {
            cpu = old.cpu;
            exists = omega (
              arith,
              old.exists,
              length-set s.cpus i
                  (record { current = some b; quantum_left = quantum p (cpu_at s i).quantum_left }),
            );
            knows = old.knows;
            runs = ground (arith, cpus-at old.cpu, old.runs);
          }
    ]

    pub dispatch-Consistent : Consistent s'
    dispatch-Consistent = record {
      running_of_cpu = dispatch-Runs;
      cpu_of_running = dispatch-Placed;
    }

    module _ (key : Process → ℕ) (bound : ℕ) (same_key : key (started p i now) ≡ key p) where
      pub dispatch-Dominates_other :
          (k : ℕ) → k ≢ i → Dominates key bound now s k → Dominates key bound now s' k
      dispatch-Dominates_other k ne d = record {
        least = λ r q j w e1 e2 e3 e4 e5.
            let old : (cpu_at s k).current ≡ some r = ground (arith, cpus-at k) in
            let run = c.running_of_cpu k r old in
            d.least r q j w old (ground (arith, procs-at r, run.at, run.is_running))
              (ground (arith, procs-at j)) e4 e5;
      }

      pub dispatch-Dominates_self :
          ((j : ℕ) (q : Process)
            → get_elem? s.procs j ≡ some q
            → eligible now q ≡ true
            → key p ≤ key q)
          → Dominates key bound now s' i
      dispatch-Dominates_self h = record {
        least = λ r q j w e1 e2 e3 e4 e5.
            let mine : q ≡ started p i now =
              ground (arith, cpus-at i, procs-at r, lt_of_get_elem? s.procs b p at) in
            rw (mine, same_key) (h j w (ground (arith, procs-at j)) e4);
      }
