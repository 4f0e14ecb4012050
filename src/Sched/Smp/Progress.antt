-- ===== src/Sched/Smp/Progress.antt =====
-- A run under a policy ends, with every process finished.
use operating_system_lab_pro.Prelude.{
  ℕ, zero, suc, ◌+◌, ◌-◌, ◌≤◌, ◌<◌, ◌≡◌, ◌≢◌, ◌⊎◌, inl, inr, refl, sym, ◌∙◌, true, List, [], ◌∷◌,
  Option, none, some, arith, length, get_elem?, ltb, dec_lt, Bool-cases, Option-cases, sum_by,
}
use operating_system_lab_pro.Sched.Smp.{
  State, ready, running, finished, Process, Machine, eligible, started, cpu_at,
}
use operating_system_lab_pro.Sched.Smp.Consistent.{Consistent}
use operating_system_lab_pro.Sched.Smp.Start.{apart_lem}
use operating_system_lab_pro.Sched.Smp.Every.{Every}
use operating_system_lab_pro.Sched.Smp.Fill.{IsChoice, Filled, fill-Filled, fill-sum}
use operating_system_lab_pro.Sched.Smp.Tick.{
  work, done, total_work, total_done, IsLawful, Ticked, tick_all-Ticked,
}
use operating_system_lab_pro.Sched.Smp.Policy.{Policy, Run, scheduled, cycle, run_loop}

-- What a policy and a property `V` of the processes at a time must be like for runs to end.
pub record IsFinite (Wanted : Process → Type 0) (V : ℕ → Process → Type 0) (last : ℕ) (pol : Policy)
    : Type 0 where
  pub good : IsChoice Wanted pol.choose
  pub law : IsLawful V pol.fate
  pub starts :
      (now : ℕ) (p : Process) (i : ℕ) → eligible now p ≡ true → V now p → V now (started p i now)
  pub wanted : (now : ℕ) (p : Process) → V now p → Wanted p
  pub arrives : (now : ℕ) (p : Process) → V now p → p.arrival_time ≤ last

done_at :
    (p : Process) (st : State)
    → p.state ≡ st
    → ((done p ≡ 1) × (p.state ≡ finished)) ⊎ ((done p ≡ 0) × (p.state ≢ finished))
done_at p ready e = inr (ground arith, λ f. ground arith)
done_at p running e = inr (ground arith, λ f. ground arith)
done_at p finished e = inl (ground arith, e)

done_cases :
    (p : Process) → ((done p ≡ 1) × (p.state ≡ finished)) ⊎ ((done p ≡ 0) × (p.state ≢ finished))
done_cases p = done_at p p.state refl

total_done_bound : (ps : List Process) → total_done ps ≤ length ps
unfolding total_done sum_by
total_done_bound [] = omega arith
total_done_bound (p ∷ ps) = omega (arith, done_cases p, total_done_bound ps)

some_unfinished :
    (ps : List Process)
    → total_done ps < length ps
    → (j : ℕ) × (p : Process) × (get_elem? ps j ≡ some p) × (p.state ≢ finished)
unfolding total_done sum_by
some_unfinished [] h = absurd (omega arith)
some_unfinished (p ∷ ps) h = elim (done_cases p) [
  | inl (d, over) ↦ let (j, q, at, live) = some_unfinished ps (omega arith) in (suc j, q, at, live)
  | inr (d, live) ↦ (0, p, refl, live)
]

all_finished : (ps : List Process) → length ps ≤ total_done ps → Every (λ p. p.state ≡ finished) ps
unfolding total_done sum_by
all_finished [] h j p e = absurd (cc)
all_finished (p ∷ ps) h zero q e = elim (done_cases p) [
  | inl (d, over) ↦ ground arith
  | inr (d, live) ↦ absurd (omega (arith, total_done_bound ps))
]
all_finished (p ∷ ps) h (suc j) q e = all_finished ps (omega (arith, done_cases p)) j q e

module _ (Wanted : Process → Type 0) (V : ℕ → Process → Type 0) (last : ℕ) (pol : Policy)
    (f : IsFinite Wanted V last pol) where
  -- What holds at the start of cycle `now`.
  pub record Inv (now : ℕ) (u : Run) : Type 0 where
    pub consistent : Consistent u.machine
    pub every : Every (V now) u.machine.procs
    pub counted : u.count ≡ total_done u.machine.procs

  module _ (now : ℕ) (u : Run) (v : Inv now u) where
    abbrev t : Machine
    t = (scheduled pol now u).0

    first_Filled : Filled Wanted pol.choose pol.quantum f.good (V now) now 0 u.machine
    first_Filled = record {
      consistent = v.consistent;
      every = v.every;
      full = λ k j q lt. absurd (omega arith);
    }

    filled :
        Filled Wanted pol.choose pol.quantum f.good (V now) now (length u.machine.cpus) t
        × (length t.cpus ≡ length u.machine.cpus)
    unfolding scheduled
    filled =
        fill-Filled Wanted pol.choose pol.quantum f.good (V now) now (λ p i. f.starts now p i)
          (length u.machine.cpus) 0 u.machine u.draws (omega arith) first_Filled

    kept :
        (w : Process → ℕ)
        → ((p : Process) (i : ℕ) → eligible now p ≡ true → w (started p i now) ≡ w p)
        → (sum_by w t.procs ≡ sum_by w u.machine.procs) × (length t.procs ≡ length u.machine.procs)
    unfolding scheduled
    kept w same =
        fill-sum Wanted pol.choose pol.quantum f.good (V now) now (λ p i. f.starts now p i) w same
          (length u.machine.cpus) 0 u.machine u.draws (omega arith) first_Filled

    same_work : total_work t.procs ≡ total_work u.machine.procs
    unfolding total_work
    same_work = (kept work (λ p i fit. ground arith)).0

    same_done : total_done t.procs ≡ total_done u.machine.procs
    unfolding total_done
    same_done = (kept done (λ p i fit. ground arith)).0

    same_length : length t.procs ≡ length u.machine.procs
    same_length = (kept work (λ p i fit. ground arith)).1

    ticked : Ticked V pol.fate f.law now 0 t (cycle pol now u).machine (cycle pol now u).count
    unfolding cycle
    ticked =
        tick_all-Ticked V pol.fate f.law now (length t.cpus) 0 t u.count (omega arith) (record {
          consistent = filled.0.consistent;
          every = λ j p e. record {
            after = f.law.later now p (filled.0.every j p e);
            before = λ c r g le. filled.0.every j p e;
          };
          counted = v.counted ∙ sym same_done;
        })

    pub cycle-Inv : Inv (now + 1) (cycle pol now u)
    cycle-Inv = record {
      consistent = ticked.consistent;
      every = ticked.every;
      counted = ticked.counted;
    }

    -- While a process has not finished, and all have arrived, some CPU is busy.
    some_busy :
        last ≤ now
        → 0 < length u.machine.cpus
        → u.count < length u.machine.procs
        → (k : ℕ) × (r : ℕ) × (k < length t.cpus) × ((cpu_at t k).current ≡ some r)
    some_busy late cpus left =
        let (j, p, at, live) =
          some_unfinished t.procs (omega (arith, same_done, same_length, v.counted)) in
        busy_for j p at live p.state refl
      where
        busy_for :
            (j : ℕ) (p : Process)
            → get_elem? t.procs j ≡ some p
            → p.state ≢ finished
            → (st : State) → p.state ≡ st
            → (k : ℕ) × (r : ℕ) × (k < length t.cpus) × ((cpu_at t k).current ≡ some r)
        busy_for j p at live ready e = elim (Option-cases (cpu_at t 0).current) [
          | inl idle ↦ absurd (
              filled.0.full 0 j p cpus idle at
                (ground (arith, f.arrives now p (filled.0.every j p at)))
                (f.wanted now p (filled.0.every j p at)))
          | inr (r, busy) ↦ (0, r, omega (arith, filled.1), busy)
        ]
        busy_for j p at live running e =
            let here = filled.0.consistent.cpu_of_running j p at e in
            (here.cpu, j, here.exists, here.runs)
        busy_for j p at live finished e = absurd (live e)

    pub cycle_less :
        (total_work (cycle pol now u).machine.procs ≤ total_work u.machine.procs)
        × (last ≤ now
            → 0 < length u.machine.cpus
            → u.count < length u.machine.procs
            → total_work (cycle pol now u).machine.procs < total_work u.machine.procs)
    cycle_less = (
      omega (arith, ticked.less, same_work),
      λ late cpus left.
          let (k, r, lt, busy) = some_busy late cpus left in
          omega (arith, ticked.strict k r (omega arith) lt busy, same_work),
    )

    pub cycle_sizes :
        (length (cycle pol now u).machine.procs ≡ length u.machine.procs)
        × (length (cycle pol now u).machine.cpus ≡ length u.machine.cpus)
    cycle_sizes = (ticked.num_procs ∙ same_length, ticked.num_cpus ∙ filled.1)

  -- The end of a run on `n` processes.
  pub record Finished (n : ℕ) (r : Option (ℕ × List Process)) : Type 0 where
    pub cycles : ℕ
    pub procs : List Process
    pub returns : r ≡ some (cycles, procs)
    pub num : length procs ≡ n
    pub all : (j : ℕ) (p : Process) → get_elem? procs j ≡ some p → (p.state ≡ finished) × V cycles p

  pub run_loop-Finished :
      (fuel now : ℕ) (u : Run)
      → Inv now u
      → 0 < length u.machine.cpus
      → (last - now) + total_work u.machine.procs < fuel
      → Finished (length u.machine.procs) (run_loop pol fuel now u)
  unfolding run_loop
  run_loop-Finished zero now u v cpus lt = absurd (omega arith)
  run_loop-Finished (suc fuel) now u v cpus lt =
      elim (Bool-cases (ltb u.count (length u.machine.procs))) [
        | inl more ↦
            let (le, less) = cycle_less now u v in
            let (np, nc) = cycle_sizes now u v in
            let left : u.count < length u.machine.procs = ground arith in
            let w =
              run_loop-Finished fuel (now + 1) (cycle pol now u) (cycle-Inv now u v)
                (omega (arith, nc))
                (elim (dec_lt now last) [
                  | yes early ↦ omega (arith, le)
                  | no late ↦ omega (arith, less (omega arith) cpus left)
                ]) in
            record {
              cycles = w.cycles;
              procs = w.procs;
              returns = ground (arith, w.returns);
              num = w.num ∙ np;
              all = w.all;
            }
        | inr enough ↦ record {
          cycles = now;
          procs = u.machine.procs;
          returns = ground arith;
          num = refl;
          all = λ j p e.
              (all_finished u.machine.procs (ground (arith, v.counted)) j p e, v.every j p e);
        }
      ]

  -- What holds of the machine `s` in cycle `now` when the idle CPUs have taken processes: no process is
  -- on two CPUs, and none that is wanted waits while a CPU is idle.
  pub record IsBusy (now : ℕ) (s : Machine) : Type 0 where
    pub apart : (i k r : ℕ) → (cpu_at s i).current ≡ some r → (cpu_at s k).current ≡ some r → i ≡ k
    pub none_idle :
        (i j : ℕ) (q : Process)
        → i < length s.cpus
        → (cpu_at s i).current ≡ none
        → get_elem? s.procs j ≡ some q
        → eligible now q ≢ true

  pub scheduled-IsBusy : (now : ℕ) (u : Run) → Inv now u → IsBusy now (scheduled pol now u).0
  scheduled-IsBusy now u v =
      let (w, size) = filled now u v in
      record {
        apart = apart_lem (scheduled pol now u).0 w.consistent;
        none_idle = λ i j q lt idle at fit.
            w.full i j q (omega (arith, size)) idle at fit (f.wanted now q (w.every j q at));
      }
