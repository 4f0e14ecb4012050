-- ===== src/Sched/Smp/Turn.antt =====
-- A CPU's turn, and the turns of all CPUs of a cycle.
use mathlib.Core.Path.{subst}
use operating_system_lab_pro.Prelude.{
  set-set, ℕ, ◌≤◌, ◌<◌, ◌≡◌, ◌≢◌, refl, sym, ap, ap₂, ◌∙◌, true, List, none, some, arith, length,
  length-set, get_elem?, get_elem?-set, get_or-set, set, ℤ, dec_lt, Option-cases, inl, inr,
}
use operating_system_lab_pro.Sched.Smp.{
  running, Process, Cpu, Machine, eligible, started, stopped, idle_cpu, cpu_at, dispatch, take_turn,
}
use operating_system_lab_pro.Sched.Smp.Pick.{IsBest}
use operating_system_lab_pro.Sched.Smp.Consistent.{Consistent, Dominates}
use operating_system_lab_pro.Sched.Smp.Dispatch.{
  dispatch-Consistent, dispatch-Dominates_other, dispatch-Dominates_self,
}
use operating_system_lab_pro.Sched.Smp.Release.{
  release, release-Consistent, release-free, release-Dominates, release_least,
}

-- What the turn of CPU `i` does to the others and to itself.
pub record Turned (key : Process → ℕ) (bound now i : ℕ) (s t : Machine) : Type 0 where
  pub consistent : Consistent t
  pub num_cpus : length t.cpus ≡ length s.cpus
  pub self : Dominates key bound now t i
  pub busy : (cpu_at t i).current ≢ none
  pub others : (k : ℕ) → k ≢ i → Dominates key bound now s k → Dominates key bound now t k
  pub apart : (k : ℕ) → k ≢ i → cpu_at t k ≡ cpu_at s k

module _ (key : Process → ℕ) (quantum : Process → ℤ → ℤ) (bound now : ℕ)
    (same_started : (p : Process) (i : ℕ) → key (started p i now) ≡ key p)
    (same_stopped : (p : Process) → key (stopped p) ≡ key p) where
  module _ {s : Machine} (c : Consistent s) (i : ℕ) (lt : i < length s.cpus) where
    idle-Turned :
        (b : ℕ) (p : Process)
        → (cpu_at s i).current ≡ none
        → get_elem? s.procs b ≡ some p
        → eligible now p ≡ true
        → ((j : ℕ) (q : Process)
            → get_elem? s.procs j ≡ some q
            → eligible now q ≡ true
            → key p ≤ key q)
        → Turned key bound now i s (dispatch quantum now s i b p)
    idle-Turned b p free at fit h = record {
      consistent = dispatch-Consistent c i lt b now p quantum free at fit;
      num_cpus = length-set s.cpus i cpu;
      self =
          dispatch-Dominates_self c i lt b now p quantum free at fit key bound (same_started p i) h;
      busy = ground (arith, get_or-set s.cpus i i cpu idle_cpu);
      others =
          dispatch-Dominates_other c i lt b now p quantum free at fit key bound (same_started p i);
      apart = λ k ne. ground (arith, get_or-set s.cpus i k cpu idle_cpu);
    }
      where
        cpu : Cpu
        cpu = record { current = some b; quantum_left = quantum p (cpu_at s i).quantum_left }

  module _ {s : Machine} (c : Consistent s) (i : ℕ) (lt : i < length s.cpus) where
    module _ (b : ℕ) (p : Process) (r : ℕ) (q : Process) (busy : (cpu_at s i).current ≡ some r)
        (at : get_elem? s.procs b ≡ some p) (at_r : get_elem? s.procs r ≡ some q)
        (fit : eligible now p ≡ true) (small : key p < bound)
        (h : (j : ℕ) (w : Process)
          → get_elem? s.procs j ≡ some w
          → eligible now w ≡ true
          → key p ≤ key w) where
      off : Cpu
      off = record { current = none; quantum_left = (cpu_at s i).quantum_left }

      own_running : q.state ≡ running
      own_running = let run = c.running_of_cpu i r busy in ground (arith, run.at, run.is_running)

      preempt-eq :
          dispatch quantum now (record s { procs = set s.procs r (stopped q) }) i b p
          ≡ dispatch quantum now (release s i r q) i b p
      unfolding off
      preempt-eq =
          ap₂ (λ (cs : List Cpu) (ps : List Process). record { procs = ps; cpus = cs })
            (ap (λ (v : ℤ). set s.cpus i (record { current = some b; quantum_left = quantum p v }))
                (ground (arith, get_or-set s.cpus i i off idle_cpu))
              ∙ sym (
                  set-set s.cpus i off (record {
                    current = some b;
                    quantum_left = quantum p (cpu_at (release s i r q) i).quantum_left;
                  })))
            refl

      still_there : get_elem? (release s i r q).procs b ≡ some p
      still_there = ground (arith, get_elem?-set s.procs r b (stopped q), own_running)

      preempt-Turned :
          key p < key q → Turned key bound now i s (dispatch quantum now (release s i r q) i b p)
      unfolding off
      preempt-Turned less =
          let size : length (release s i r q).cpus ≡ length s.cpus = length-set s.cpus i off in
          let t =
            idle-Turned (release-Consistent c i lt r q busy at_r) i (omega (arith, size)) b p
              (release-free c i lt r q busy at_r) still_there fit
              (release_least c i lt r q busy at_r key bound now (same_stopped q) (key p)
                (omega arith) h) in
          record {
            consistent = t.consistent;
            num_cpus = t.num_cpus ∙ size;
            self = t.self;
            busy = t.busy;
            others = λ k ne d. t.others k ne (
                release-Dominates c i lt r q busy at_r key bound now (same_stopped q) k ne
                  (λ m w e1 e2. omega (arith, d.least m w b p e1 e2 at fit small)) d);
            apart = λ k ne. t.apart k ne ∙ ground (arith, get_or-set s.cpus i k off idle_cpu);
          }

      stay-Turned : key q ≤ key p → Turned key bound now i s s
      stay-Turned le = record {
        consistent = c;
        num_cpus = refl;
        self = record {
          least = λ m w j v e1 e2 e3 e4 e5.
              let same : m ≡ r = ground (arith, busy) in
              let w-eq : w ≡ q = ground (arith, at_r, same) in
              let small = h j v e3 e4 in rw w-eq (omega arith);
        };
        busy = λ e. ground arith;
        others = λ k ne d. d;
        apart = λ k ne. refl;
      }

      turn_preempts :
          key p < key q
          → take_turn key quantum now i b s ≡ dispatch quantum now (release s i r q) i b p
      unfolding take_turn
      turn_preempts less = ground (arith, preempt-eq)

      turn_stays : key q ≤ key p → take_turn key quantum now i b s ≡ s
      unfolding take_turn
      turn_stays le = ground arith

      busy-Turned : Turned key bound now i s (take_turn key quantum now i b s)
      busy-Turned = elim (dec_lt (key p) (key q)) [
        | yes less ↦
            subst (Turned key bound now i s) (sym (turn_preempts less)) (preempt-Turned less)
        | no le ↦
            subst (Turned key bound now i s) (sym (turn_stays (omega arith)))
              (stay-Turned (omega arith))
      ]

    turn_idle :
        (b : ℕ) (p : Process)
        → (cpu_at s i).current ≡ none
        → get_elem? s.procs b ≡ some p
        → take_turn key quantum now i b s ≡ dispatch quantum now s i b p
    unfolding take_turn
    turn_idle b p free at = ground arith

    -- With the best eligible process at hand.
    pub take_turn-Turned :
        (b : ℕ)
        → IsBest key now bound s.procs b
        → Turned key bound now i s (take_turn key quantum now i b s)
    take_turn-Turned b best = elim (Option-cases (cpu_at s i).current) [
      | inl free ↦
          subst (Turned key bound now i s) (sym (turn_idle b best.winner free best.at))
            (idle-Turned c i lt b best.winner free best.at best.fit best.least)
      | inr (r, on) ↦
          let run = c.running_of_cpu i r on in
          busy-Turned b best.winner r run.proc on best.at run.at best.fit best.small best.least
    ]
