-- ===== src/Sched/Aryan/RoundRobin/Finishes.antt =====
-- A run of round robin ends, whatever the time quantum.
use operating_system_lab_pro.Prelude.{
  ℕ, zero, suc, ◌+◌, ◌<◌, ◌≡◌, refl, ap, ◌∙◌, true, false, List, [], ◌∷◌, none, some, arith,
  get_elem?, length, ℤ, pos, eq_ℤ, dec_ℤ, Bool-cases, inl, inr,
}
use operating_system_lab_pro.Sched.Smp.{running, ready, finished, Process, Cpu, eligible}
use operating_system_lab_pro.Sched.Smp.Every.{Every}
use operating_system_lab_pro.Sched.Smp.Fill.{IsChoice}
use operating_system_lab_pro.Sched.Smp.Tick.{IsFair, on, back, over}
use operating_system_lab_pro.Sched.Smp.Progress.{IsFinite}
use operating_system_lab_pro.Sched.Smp.Timely.{
  Timely, Timely-later, Timely-started, Timely-works, Timely-yields, Timely-ends, work-works,
  work-yields, work-ends,
}
use operating_system_lab_pro.Sched.Smp.Fresh.{IsFresh, Completes, total_burst, run-Completes}
use operating_system_lab_pro.Sched.Aryan.RoundRobin.{
  first_ready, rr_choice, rr_fate, round_robin, run_custom_rr,
}

abbrev pub AnyProcess : Process → Type 0
AnyProcess p = Unit

first_ready-some :
    (now i : ℕ) (ps : List Process) (b : ℕ)
    → first_ready now i ps ≡ some b
    → (d : ℕ) × (b ≡ i + d) × (p : Process) × (get_elem? ps d ≡ some p) × (eligible now p ≡ true)
unfolding first_ready
first_ready-some now i [] b e = absurd (cc)
first_ready-some now i (p ∷ ps) b e = elim (Bool-cases (eligible now p)) [
  | inl fit ↦ (0, ground arith, p, refl, fit)
  | inr not_fit ↦
      let (d, eq, q, at, fit) = first_ready-some now (i + 1) ps b (ground arith) in
      (suc d, omega arith, q, at, fit)
]

first_ready-none :
    (now i : ℕ) (ps : List Process) (j : ℕ) (q : Process)
    → first_ready now i ps ≡ none
    → get_elem? ps j ≡ some q
    → eligible now q ≡ false
unfolding first_ready
first_ready-none now i [] j q e at = absurd (cc)
first_ready-none now i (p ∷ ps) zero q e at = ground arith
first_ready-none now i (p ∷ ps) (suc j) q e at =
    first_ready-none now (i + 1) ps j q (ground arith) at

rr_choice-IsChoice : IsChoice AnyProcess rr_choice
rr_choice-IsChoice = record {
  sound = λ now draws ps b e.
      let (d, eq, p, at, fit) = first_ready-some now 0 ps b e in
      let same : b ≡ d = omega arith in (p, ap (get_elem? ps) same ∙ at, fit);
  complete = λ now draws ps j q e at fit any. absurd (cc (first_ready-none now 0 ps j q e at, fit));
}

module _ (last : ℕ) where
  rr_fate-IsFair :
      (now : ℕ) (p : Process) (c : Cpu)
      → Timely AnyProcess last now p
      → p.state ≡ running
      → IsFair (Timely AnyProcess last) now p c (rr_fate now p c)
  unfolding rr_fate
  rr_fate-IsFair now p c v r = elim (Bool-cases (eq_ℤ (dec_ℤ p.remaining_time) (pos 0))) [
    | inl e ↦
        over
          (record p {
            remaining_time = dec_ℤ p.remaining_time;
            state = finished;
            completion_time = now + 1;
          })
          (record { current = none; quantum_left = dec_ℤ c.quantum_left }) (ground arith) refl refl
          (Timely-ends AnyProcess last now p v r e tt) (work-ends AnyProcess last now p v r e)
    | inr e ↦ elim (Bool-cases (eq_ℤ (dec_ℤ c.quantum_left) (pos 0))) [
      | inl q ↦
          back (record p { remaining_time = dec_ℤ p.remaining_time; state = ready })
            (record { current = none; quantum_left = dec_ℤ c.quantum_left }) (ground arith) refl
            refl (Timely-yields AnyProcess last now p v r e tt)
            (work-yields AnyProcess last now p v r e)
      | inr q ↦
          on (record p { remaining_time = dec_ℤ p.remaining_time })
            (record c { quantum_left = dec_ℤ c.quantum_left }) (ground arith) r refl refl
            (Timely-works AnyProcess last now p v r e tt) (work-works AnyProcess last now p v r e)
    ]
  ]

  pub round_robin-IsFinite :
      (time_quantum : ℤ)
      → IsFinite AnyProcess (Timely AnyProcess last) last (round_robin time_quantum)
  unfolding round_robin
  round_robin-IsFinite time_quantum = record {
    good = rr_choice-IsChoice;
    law = record { later = Timely-later AnyProcess last; fair = rr_fate-IsFair };
    starts = λ now p i fit v. Timely-started AnyProcess last now p v i fit tt;
    wanted = λ now p v. tt;
    arrives = λ now p v. v.arrives;
  }

-- From a fresh table whose processes arrive at `last` or before, on one CPU or more, a run of round
-- robin ends within `last` and the sum of the bursts, whatever the time quantum; at its end each
-- process has finished, not before its burst has passed since its arrival.
pub run_custom_rr-Completes :
    (last : ℕ) (time_quantum : ℤ) (fuel : ℕ) (ps : List Process) (cpus : ℕ)
    → Every (IsFresh AnyProcess last) ps
    → 0 < cpus
    → last + total_burst ps < fuel
    → Completes (length ps) (run_custom_rr time_quantum fuel ps cpus)
unfolding run_custom_rr
run_custom_rr-Completes last time_quantum fuel ps cpus fresh some_cpu enough =
    run-Completes AnyProcess last AnyProcess (round_robin time_quantum)
      (round_robin-IsFinite last time_quantum) ps cpus fresh fuel some_cpu enough
