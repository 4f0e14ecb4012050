-- ===== src/Sched/Smp/Update.antt =====
-- The advance of a CPU: its process goes on, or leaves the CPU.
use operating_system_lab_pro.Prelude.{
  ℕ, ◌<◌, ◌≡◌, ◌≢◌, sym, ◌∙◌, none, some, arith, length, length-set, get_elem?, get_elem?-set,
  lt_of_get_elem?, get_or-set, set, ltb, ◌==◌, if◌then◌else◌, ◌&&◌, ℕ_discrete,
}
use operating_system_lab_pro.Sched.Smp.{running, Process, Cpu, Machine, idle_cpu, cpu_at}
use operating_system_lab_pro.Sched.Smp.Consistent.{Runs, Placed, Consistent}

-- Process `r` and CPU `i` are replaced.
abbrev pub updated : Machine → (i : ℕ) → Cpu → (r : ℕ) → Process → Machine
updated s i cpu r q = record { procs = set s.procs r q; cpus = set s.cpus i cpu }

module _ {s : Machine} (c : Consistent s) (i : ℕ) (cpu : Cpu) (r : ℕ) (q : Process) (old : Process)
    (busy : (cpu_at s i).current ≡ some r) (at : get_elem? s.procs r ≡ some old) where
  abbrev s' : Machine
  s' = updated s i cpu r q

  procs-at :
      (j : ℕ)
      → get_elem? s'.procs j
        ≡ (if r == j && ltb r (length s.procs) then some q else get_elem? s.procs j)
  procs-at j = get_elem?-set s.procs r j q

  cpus-at : (j : ℕ) → cpu_at s' j ≡ (if i == j && ltb i (length s.cpus) then cpu else cpu_at s j)
  cpus-at j = get_or-set s.cpus i j cpu idle_cpu

  module _ (same_state : q.state ≡ old.state) (same_cpu : q.cpu_id ≡ old.cpu_id)
      (same_current : cpu.current ≡ some r) where
    keep_current : (j : ℕ) → (cpu_at s' j).current ≡ (cpu_at s j).current
    keep_current j = ground (arith, cpus-at j, busy, same_current)

    keep-Runs : (j k : ℕ) → (cpu_at s' j).current ≡ some k → Runs s' j k
    keep-Runs j k e =
        let run = c.running_of_cpu j k (sym (keep_current j) ∙ e) in
        elim (ℕ_discrete r k) [
          | yes same ↦ record {
            proc = q;
            at = ground (arith, procs-at k, lt_of_get_elem? s.procs r old at);
            is_running = ground (arith, run.at, run.is_running);
            on = ground (arith, run.at, run.on);
          }
          | no other ↦ record {
            proc = run.proc;
            at = ground (arith, procs-at k, run.at);
            is_running = run.is_running;
            on = run.on;
          }
        ]

    keep-Placed :
        (j : ℕ) (w : Process) → get_elem? s'.procs j ≡ some w → w.state ≡ running → Placed s' j w
    keep-Placed j w e run = elim (ℕ_discrete r j) [
      | yes same ↦
          let w-eq : w ≡ q = ground (arith, procs-at j, lt_of_get_elem? s.procs r old at) in
          let before = c.cpu_of_running j old (ground arith) (ground (arith, w-eq, same_state)) in
          record {
            cpu = before.cpu;
            exists = omega (arith, before.exists, length-set s.cpus i cpu);
            knows = ground (arith, w-eq, same_cpu, before.knows);
            runs = keep_current before.cpu ∙ before.runs;
          }
      | no other ↦
          let before = c.cpu_of_running j w (ground (arith, procs-at j)) run in
          record {
            cpu = before.cpu;
            exists = omega (arith, before.exists, length-set s.cpus i cpu);
            knows = before.knows;
            runs = keep_current before.cpu ∙ before.runs;
          }
    ]

    -- The process goes on.
    pub keep-Consistent : Consistent s'
    keep-Consistent = record { running_of_cpu = keep-Runs; cpu_of_running = keep-Placed }

  module _ (lt : i < length s.cpus) (left_state : q.state ≢ running)
      (left_cpu : cpu.current ≡ none) where
    retire-Runs : (j k : ℕ) → (cpu_at s' j).current ≡ some k → Runs s' j k
    retire-Runs j k e =
        let before : (cpu_at s j).current ≡ some k = ground (arith, cpus-at j) in
        let run = c.running_of_cpu j k before in
        let own = c.running_of_cpu i r busy in
        let other : i ≢ j = λ same. ground (arith, cpus-at j) in
        record {
          proc = run.proc;
          at = ground (arith, procs-at k, run.at, run.on, own.at, own.on);
          is_running = run.is_running;
          on = run.on;
        }

    retire-Placed :
        (j : ℕ) (w : Process) → get_elem? s'.procs j ≡ some w → w.state ≡ running → Placed s' j w
    retire-Placed j w e run =
        let there = lt_of_get_elem? s.procs r old at in
        let other : r ≢ j = λ same. ground (arith, procs-at j, there) in
        let before = c.cpu_of_running j w (ground (arith, procs-at j)) run in
        record {
          cpu = before.cpu;
          exists = omega (arith, before.exists, length-set s.cpus i cpu);
          knows = before.knows;
          runs = ground (arith, cpus-at before.cpu, before.runs, busy);
        }

    -- The process leaves the CPU.
    pub retire-Consistent : Consistent s'
    retire-Consistent = record { running_of_cpu = retire-Runs; cpu_of_running = retire-Placed }

module _ {s : Machine} (c : Consistent s) (r : ℕ) (q old : Process)
    (at : get_elem? s.procs r ≡ some old) (same_state : q.state ≡ old.state)
    (same_cpu : q.cpu_id ≡ old.cpu_id) where
  new_procs :
      (j : ℕ)
      → get_elem? (set s.procs r q) j
        ≡ (if r == j && ltb r (length s.procs) then some q else get_elem? s.procs j)
  new_procs j = get_elem?-set s.procs r j q

  abbrev relabelled : Machine
  relabelled = record s { procs = set s.procs r q }

  relabel-Runs : (j k : ℕ) → (cpu_at relabelled j).current ≡ some k → Runs relabelled j k
  relabel-Runs j k e =
      let run = c.running_of_cpu j k e in
      elim (ℕ_discrete r k) [
        | yes same ↦ record {
          proc = q;
          at = ground (arith, new_procs k, lt_of_get_elem? s.procs r old at);
          is_running = ground (arith, run.at, run.is_running);
          on = ground (arith, run.at, run.on);
        }
        | no other ↦ record {
          proc = run.proc;
          at = ground (arith, new_procs k, run.at);
          is_running = run.is_running;
          on = run.on;
        }
      ]

  relabel-Placed :
      (j : ℕ) (w : Process)
      → get_elem? relabelled.procs j ≡ some w
      → w.state ≡ running
      → Placed relabelled j w
  relabel-Placed j w e run = elim (ℕ_discrete r j) [
    | yes same ↦
        let w-eq : w ≡ q = ground (arith, new_procs j, lt_of_get_elem? s.procs r old at) in
        let before = c.cpu_of_running j old (ground arith) (ground (arith, w-eq, same_state)) in
        record {
          cpu = before.cpu;
          exists = before.exists;
          knows = ground (arith, w-eq, same_cpu, before.knows);
          runs = before.runs;
        }
    | no other ↦
        let before = c.cpu_of_running j w (ground (arith, new_procs j)) run in
        record {
          cpu = before.cpu;
          exists = before.exists;
          knows = before.knows;
          runs = before.runs;
        }
  ]

  -- A process changes, but for its state and its CPU.
  pub relabel-Consistent : Consistent relabelled
  relabel-Consistent = record { running_of_cpu = relabel-Runs; cpu_of_running = relabel-Placed }
