-- ===== src/Sched/Aryan/Deadline/Finishes.antt =====
-- A run of this EDF ends, and its choice is the earliest deadline.
use operating_system_lab_pro.Prelude.{
  ℕ, ◌+◌, ◌<◌, ◌≡◌, refl, ◌∙◌, List, none, arith, get_elem?, length, pos, eq_ℤ, dec_ℤ, Bool-cases,
  inl, inr,
}
use operating_system_lab_pro.Sched.Smp.{running, finished, Process, Cpu}
use operating_system_lab_pro.Sched.Smp.Every.{Every}
use operating_system_lab_pro.Sched.Smp.Pick.{pick_lem}
use operating_system_lab_pro.Sched.Smp.Fill.{IsChoice}
use operating_system_lab_pro.Sched.Smp.Tick.{IsFair, on, over}
use operating_system_lab_pro.Sched.Smp.Progress.{IsFinite}
use operating_system_lab_pro.Sched.Smp.Timely.{
  Timely, Timely-later, Timely-started, Timely-works, Timely-ends, work-works, work-ends,
}
use operating_system_lab_pro.Sched.Smp.Fresh.{IsFresh, Completes, total_burst, run-Completes}
use operating_system_lab_pro.Sched.Aryan.Deadline.{no_deadline, edf_choice, edf_fate, edf, run_edf}

-- A process that can be chosen.
abbrev pub HasDeadline : Process → Type 0
HasDeadline p = p.deadline < no_deadline

edf_choice-IsChoice : IsChoice HasDeadline edf_choice
unfolding edf_choice
edf_choice-IsChoice = record {
  sound = λ now draws ps b e. elim (pick_lem (λ p. p.deadline) now no_deadline ps) [
    | inl (e', h) ↦ absurd (cc)
    | inr (w, e', best) ↦
        let same : get_elem? ps b ≡ get_elem? ps w = ground arith in
        (best.winner, same ∙ best.at, best.fit)
  ];
  complete = λ now draws ps j q e at fit small.
      elim (pick_lem (λ p. p.deadline) now no_deadline ps) [
        | inl (e', h) ↦ absurd (omega (arith, h j q at fit))
        | inr (w, e', best) ↦ absurd (cc)
      ];
}

module _ (last : ℕ) where
  edf_fate-IsFair :
      (now : ℕ) (p : Process) (c : Cpu)
      → Timely HasDeadline last now p
      → p.state ≡ running
      → IsFair (Timely HasDeadline last) now p c (edf_fate now p c)
  unfolding edf_fate
  edf_fate-IsFair now p c v r = elim (Bool-cases (eq_ℤ (dec_ℤ p.remaining_time) (pos 0))) [
    | inl e ↦
        over
          (record p {
            remaining_time = dec_ℤ p.remaining_time;
            state = finished;
            completion_time = now + 1;
          })
          (record c { current = none }) (ground arith) refl refl
          (Timely-ends HasDeadline last now p v r e v.extra)
          (work-ends HasDeadline last now p v r e)
    | inr e ↦
        on (record p { remaining_time = dec_ℤ p.remaining_time }) c (ground arith) r refl refl
          (Timely-works HasDeadline last now p v r e v.extra)
          (work-works HasDeadline last now p v r e)
  ]

  pub edf-IsFinite : IsFinite HasDeadline (Timely HasDeadline last) last edf
  unfolding edf
  edf-IsFinite = record {
    good = edf_choice-IsChoice;
    law = record { later = Timely-later HasDeadline last; fair = edf_fate-IsFair };
    starts = λ now p i fit v. Timely-started HasDeadline last now p v i fit v.extra;
    wanted = λ now p v. v.extra;
    arrives = λ now p v. v.arrives;
  }

-- From a fresh table whose processes arrive at `last` or before and have deadlines below 100000, on one
-- CPU or more, a run ends within `last` and the sum of the bursts; at its end each process has finished,
-- not before its burst has passed since its arrival.
pub run_edf-Completes :
    (last fuel : ℕ) (ps : List Process) (cpus : ℕ)
    → Every (IsFresh HasDeadline last) ps
    → 0 < cpus
    → last + total_burst ps < fuel
    → Completes (length ps) (run_edf fuel ps cpus)
unfolding run_edf
run_edf-Completes last fuel ps cpus fresh some_cpu enough =
    run-Completes HasDeadline last HasDeadline edf (edf-IsFinite last) ps cpus fresh fuel some_cpu
      enough
