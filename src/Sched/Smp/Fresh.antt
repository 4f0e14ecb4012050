-- ===== src/Sched/Smp/Fresh.antt =====
-- Runs from a fresh table, where every process is READY with its whole burst left.
use operating_system_lab_pro.Prelude.{
  ℕ, zero, suc, ◌+◌, ◌-◌, ◌≤◌, ◌<◌, ◌≡◌, inl, refl, sym, ap, List, [], ◌∷◌, Option, some, arith,
  length, get_elem?, pos, sum_by,
}
use mathlib.Core.Path.{subst}
use operating_system_lab_pro.Sched.Smp.{ready, finished, Process, start_cpus}
use operating_system_lab_pro.Sched.Smp.Start.{start-Consistent}
use operating_system_lab_pro.Sched.Smp.Every.{Every}
use operating_system_lab_pro.Sched.Smp.Tick.{work, done, total_work, total_done}
use operating_system_lab_pro.Sched.Smp.Policy.{Policy, scheduled, cycle, start, run, after}
use operating_system_lab_pro.Sched.Smp.Progress.{
  IsFinite, Inv, cycle-Inv, IsBusy, scheduled-IsBusy, run_loop-Finished,
}
use operating_system_lab_pro.Sched.Smp.Timely.{Timely}

-- A process before a run, which arrives at `last` or before.
pub record IsFresh (Extra : Process → Type 0) (last : ℕ) (p : Process) : Type 0 where
  pub is_ready : p.state ≡ ready
  pub whole : p.remaining_time ≡ pos p.burst_time
  pub positive : 0 < p.burst_time
  pub arrives : p.arrival_time ≤ last
  pub extra : Extra p

unfoldable pub total_burst : List Process → ℕ
total_burst ps = sum_by (λ p. p.burst_time) ps

-- A run on `n` processes returns, and at the end each of them has finished, not before its burst has
-- passed since its arrival.
pub record Completes (n : ℕ) (r : Option (ℕ × List Process)) : Type 0 where
  pub cycles : ℕ
  pub procs : List Process
  pub returns : r ≡ some (cycles, procs)
  pub num : length procs ≡ n
  pub all :
      (j : ℕ) (p : Process)
      → get_elem? procs j ≡ some p
      → (p.state ≡ finished) × (p.arrival_time + p.burst_time ≤ p.completion_time)

module _ (Extra : Process → Type 0) (last : ℕ) where
  fresh-Timely : (p : Process) → IsFresh Extra last p → Timely Extra last 0 p
  fresh-Timely p f = record {
    extra = f.extra;
    arrives = f.arrives;
    left = λ live. (
      p.burst_time - 1,
      ground (arith, f.whole, f.positive),
      omega (arith, f.positive),
      inl (omega (arith, f.positive)),
    );
    here = λ e. absurd (ground (arith, f.is_ready));
    over = λ e. absurd (ground (arith, f.is_ready));
  }

  fresh_work : (ps : List Process) → Every (IsFresh Extra last) ps → total_work ps ≡ total_burst ps
  unfolding total_work total_burst sum_by
  fresh_work [] h = refl
  fresh_work (p ∷ ps) h =
      let f = h 0 p refl in
      let one : work p ≡ p.burst_time = ground (arith, f.is_ready, f.whole) in
      omega (arith, one, fresh_work ps (λ j q e. h (suc j) q e))

  fresh_done : (ps : List Process) → Every (IsFresh Extra last) ps → total_done ps ≡ 0
  unfolding total_done sum_by
  fresh_done [] h = refl
  fresh_done (p ∷ ps) h =
      let f = h 0 p refl in
      let none_done : done p ≡ 0 = ground (arith, f.is_ready) in
      omega (arith, none_done, fresh_done ps (λ j q e. h (suc j) q e))

  length-start_cpus : (n : ℕ) → length (start_cpus n) ≡ n
  unfolding start_cpus
  length-start_cpus zero = refl
  length-start_cpus (suc n) = ap suc (length-start_cpus n)

  module _ (Wanted : Process → Type 0) (pol : Policy)
      (f : IsFinite Wanted (Timely Extra last) last pol) (ps : List Process) (cpus : ℕ)
      (fresh : Every (IsFresh Extra last) ps) where
    start-Inv : Inv Wanted (Timely Extra last) last pol f 0 (start ps cpus)
    unfolding start
    start-Inv = record {
      consistent = start-Consistent ps cpus (λ j q e r. ground (arith, (fresh j q e).is_ready));
      every = λ j q e. fresh-Timely q (fresh j q e);
      counted = sym (fresh_done ps fresh);
    }

    after-Inv : (n : ℕ) → Inv Wanted (Timely Extra last) last pol f n (after pol n ps cpus)
    unfolding after
    after-Inv zero = start-Inv
    after-Inv (suc n) =
        subst (λ k. Inv Wanted (Timely Extra last) last pol f k (cycle pol n (after pol n ps cpus)))
          (omega arith)
          (cycle-Inv Wanted (Timely Extra last) last pol f n (after pol n ps cpus) (after-Inv n))

    -- For every lawful policy and fresh table of processes, in every cycle of a run, once the idle CPUs have
    -- been filled: no process is on two CPUs, and an idle CPU is left only if no process can run.
    pub after-IsBusy :
        (n : ℕ)
        → IsBusy Wanted (Timely Extra last) last pol f n (scheduled pol n (after pol n ps cpus)).0
    after-IsBusy n =
        scheduled-IsBusy Wanted (Timely Extra last) last pol f n (after pol n ps cpus) (after-Inv n)

    pub run-Completes :
        (fuel : ℕ)
        → 0 < cpus
        → last + total_burst ps < fuel
        → Completes (length ps) (run pol fuel ps cpus)
    unfolding run start
    run-Completes fuel some_cpu enough =
        let w =
          run_loop-Finished Wanted (Timely Extra last) last pol f fuel 0 (start ps cpus) start-Inv
            (omega (arith, length-start_cpus cpus)) (omega (arith, fresh_work ps fresh)) in
        record {
          cycles = w.cycles;
          procs = w.procs;
          returns = w.returns;
          num = w.num;
          all = λ j p e. ((w.all j p e).0, (w.all j p e).1.over (w.all j p e).0);
        }
