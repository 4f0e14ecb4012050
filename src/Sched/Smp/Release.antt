-- ===== src/Sched/Smp/Release.antt =====
-- A CPU gives up its process.
use operating_system_lab_pro.Prelude.{
  ℕ, ◌≤◌, ◌<◌, ◌≡◌, ◌≢◌, true, none, some, arith, length, length-set, get_elem?, get_elem?-set,
  lt_of_get_elem?, get_or-set, set, ltb, ◌==◌, if◌then◌else◌, ◌&&◌, ℕ_discrete,
}
use operating_system_lab_pro.Sched.Smp.{
  running, Process, Cpu, Machine, eligible, stopped, idle_cpu, cpu_at,
}
use operating_system_lab_pro.Sched.Smp.Consistent.{Runs, Placed, Consistent, Dominates}

-- The CPU's process goes back to READY.
abbrev pub release : Machine → (i r : ℕ) → Process → Machine
release s i r q = record {
  procs = set s.procs r (stopped q);
  cpus = set s.cpus i (record { current = none; quantum_left = (cpu_at s i).quantum_left });
}

module _ {s : Machine} (c : Consistent s) (i : ℕ) (lt : i < length s.cpus) where
  module _ (r : ℕ) (q : Process) (busy : (cpu_at s i).current ≡ some r)
      (at : get_elem? s.procs r ≡ some q) where
    abbrev freed : Machine
    freed = release s i r q

    abbrev off : Cpu
    off = record { current = none; quantum_left = (cpu_at s i).quantum_left }

    freed-procs :
        (j : ℕ)
        → get_elem? freed.procs j
          ≡ (if r == j && ltb r (length s.procs) then some (stopped q) else get_elem? s.procs j)
    freed-procs j = get_elem?-set s.procs r j (stopped q)

    freed-cpus :
        (j : ℕ) → cpu_at freed j ≡ (if i == j && ltb i (length s.cpus) then off else cpu_at s j)
    freed-cpus j = get_or-set s.cpus i j off idle_cpu

    release-Runs : (j k : ℕ) → (cpu_at freed j).current ≡ some k → Runs freed j k
    release-Runs j k e =
        let old : (cpu_at s j).current ≡ some k = ground (arith, freed-cpus j) in
        let run = c.running_of_cpu j k old in
        let own = c.running_of_cpu i r busy in
        let other : i ≢ j = λ same. ground (arith, freed-cpus j) in
        record {
          proc = run.proc;
          at = ground (arith, freed-procs k, run.at, run.on, own.at, own.on);
          is_running = run.is_running;
          on = run.on;
        }

    release-Placed :
        (j : ℕ) (w : Process)
        → get_elem? freed.procs j ≡ some w
        → w.state ≡ running
        → Placed freed j w
    release-Placed j w e run =
        let there = lt_of_get_elem? s.procs r q at in
        let other : r ≢ j = λ same. ground (arith, freed-procs j, there) in
        let old = c.cpu_of_running j w (ground (arith, freed-procs j)) run in
        record {
          cpu = old.cpu;
          exists = omega (arith, old.exists, length-set s.cpus i off);
          knows = old.knows;
          runs = ground (arith, freed-cpus old.cpu, old.runs, busy);
        }

    pub release-Consistent : Consistent freed
    release-Consistent = record { running_of_cpu = release-Runs; cpu_of_running = release-Placed }

    pub release-free : (cpu_at freed i).current ≡ none
    release-free = ground (arith, freed-cpus i)

    module _ (key : Process → ℕ) (bound now : ℕ) (same_key : key (stopped q) ≡ key q) where
      pub release-Dominates :
          (k : ℕ)
          → k ≢ i
          → ((m : ℕ) (p : Process)
              → (cpu_at s k).current ≡ some m
              → get_elem? s.procs m ≡ some p
              → key p ≤ key q)
          → Dominates key bound now s k
          → Dominates key bound now freed k
      release-Dominates k ne le d = record {
        least = λ m p j w e1 e2 e3 e4 e5.
            let old : (cpu_at s k).current ≡ some m = ground (arith, freed-cpus k) in
            let run = c.running_of_cpu k m old in
            let own = c.running_of_cpu i r busy in
            let here : get_elem? s.procs m ≡ some p =
              ground (arith, freed-procs m, run.at, run.on, own.at, own.on) in
            elim (ℕ_discrete r j) [
              | yes same ↦
                  let w-eq : w ≡ stopped q =
                    ground (arith, freed-procs j, lt_of_get_elem? s.procs r q at) in
                  rw (w-eq, same_key) (le m p old here)
              | no other ↦ d.least m p j w old here (ground (arith, freed-procs j)) e4 e5
            ];
      }

      -- Nobody below `low` waits after the release either, if `q` is not below it.
      pub release_least :
          (low : ℕ)
          → low ≤ key q
          → ((j : ℕ) (w : Process)
              → get_elem? s.procs j ≡ some w
              → eligible now w ≡ true
              → low ≤ key w)
          → (j : ℕ) (w : Process) → get_elem? freed.procs j ≡ some w
          → eligible now w ≡ true
          → low ≤ key w
      release_least low le h j w e fit = elim (ℕ_discrete r j) [
        | yes same ↦
            let w-eq : w ≡ stopped q =
              ground (arith, freed-procs j, lt_of_get_elem? s.procs r q at) in
            rw (w-eq, same_key) le
        | no other ↦ h j w (ground (arith, freed-procs j)) fit
      ]
