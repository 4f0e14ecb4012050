-- ===== src/Sched/Mlfq/Boost.antt =====
-- The periodic boost.
use operating_system_lab_pro.Prelude.{
  ℕ, zero, suc, ◌+◌, ◌<◌, ◌≡◌, refl, sym, ap, ◌∙◌, true, none, some, arith, length, get_elem?,
  get_elem?-set, lt_of_get_elem?, set, ltb, leb, ◌%◌, ◌==◌, if◌then◌else◌, ◌&&◌, Bool-cases,
  Option-cases, inl, inr,
}
use mathlib.Core.Path.{subst}
use operating_system_lab_pro.Sched.Smp.{State, ready, running, finished, Process, Machine, cpu_at}
use operating_system_lab_pro.Sched.Smp.Consistent.{Consistent}
use operating_system_lab_pro.Sched.Smp.Update.{updated, keep-Consistent, relabel-Consistent}
use operating_system_lab_pro.Sched.Mlfq.{
  time_slice, is_finished, raised, boost_one, boost_all, boost_cycle, is_boost, boosted,
}

module _ (j : ℕ) (s : Machine) (c : Consistent s) where
  boost_missing : get_elem? s.procs j ≡ none → boost_one j s ≡ s
  unfolding boost_one
  boost_missing e = ground arith

  module _ (p : Process) (at : get_elem? s.procs j ≡ some p) where
    boost_finished : is_finished p.state ≡ true → boost_one j s ≡ s
    unfolding boost_one
    boost_finished e = ground arith

    boost_waiting :
        p.state ≡ ready → boost_one j s ≡ record { procs = set s.procs j (raised p); cpus = s.cpus }
    unfolding boost_one
    boost_waiting e = ground arith

    boost_running :
        (k : ℕ)
        → p.state ≡ running
        → p.cpu_id ≡ some k
        → boost_one j s
          ≡ updated s k (record (cpu_at s k) { quantum_left = time_slice 0 }) j (raised p)
    unfolding boost_one
    boost_running k e on = ground arith

    boost_at : (st : State) → p.state ≡ st → Consistent (boost_one j s)
    boost_at ready e =
        subst Consistent (sym (boost_waiting e)) (relabel-Consistent c j (raised p) p at refl refl)
    boost_at running e =
        let here = c.cpu_of_running j p at e in
        subst Consistent (sym (boost_running here.cpu e here.knows)) (
          keep-Consistent c here.cpu (record (cpu_at s here.cpu) { quantum_left = time_slice 0 }) j
            (raised p) p here.runs at refl refl here.runs)
    boost_at finished e = subst Consistent (sym (boost_finished (ground arith))) c

  boost_one-Consistent : Consistent (boost_one j s)
  boost_one-Consistent = elim (Option-cases (get_elem? s.procs j)) [
    | inl e ↦ subst Consistent (sym (boost_missing e)) c
    | inr (p, at) ↦ boost_at p at p.state refl
  ]

boost_all-Consistent : (n j : ℕ) (s : Machine) → Consistent s → Consistent (boost_all n j s)
unfolding boost_all
boost_all-Consistent zero j s c = c
boost_all-Consistent (suc n) j s c =
    boost_all-Consistent n (j + 1) (boost_one j s) (boost_one-Consistent j s c)

pub boosted-Consistent : (now : ℕ) (s : Machine) → Consistent s → Consistent (boosted now s)
unfolding boosted
boosted-Consistent now s c = elim (Bool-cases (is_boost now)) [
  | inl e ↦ rw e (boost_all-Consistent (length s.procs) 0 s c)
  | inr e ↦ rw e c
]

-- What a boost makes of a process.
abbrev pub reset : Process → Process
reset p = if is_finished p.state then p else raised p

boost_one-at :
    (j k : ℕ) (s : Machine) (p : Process)
    → get_elem? s.procs k ≡ some p
    → get_elem? (boost_one j s).procs k ≡ some (if k == j then reset p else p)
unfolding boost_one
boost_one-at j k s p e = elim (Option-cases (get_elem? s.procs j)) [
  | inl missing ↦ ground arith
  | inr (q, at) ↦
      ground (arith, get_elem?-set s.procs j k (raised q), lt_of_get_elem? s.procs k p e)
]

boost_all-at :
    (n j k : ℕ) (s : Machine) (p : Process)
    → get_elem? s.procs k ≡ some p
    → get_elem? (boost_all n j s).procs k ≡ some (if leb j k && ltb k (j + n) then reset p else p)
unfolding boost_all
boost_all-at zero j k s p e = ground arith
boost_all-at (suc n) j k s p e =
    boost_all-at n (j + 1) k (boost_one j s) (if k == j then reset p else p)
      (boost_one-at j k s p e)
    ∙ ap some (ground arith)

-- In a cycle of a boost, every process that is not finished goes to level 0; nothing else of the
-- processes changes, and nothing of the finished ones.
pub boosted_lem :
    (now k : ℕ) (s : Machine) (p : Process)
    → 0 < now
    → now % boost_cycle ≡ 0
    → get_elem? s.procs k ≡ some p
    → get_elem? (boosted now s).procs k ≡ some (reset p)
unfolding boosted
boosted_lem now k s p pos_now turn e =
    ground (arith, boost_all-at (length s.procs) 0 k s p e, lt_of_get_elem? s.procs k p e)
