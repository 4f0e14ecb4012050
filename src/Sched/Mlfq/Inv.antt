-- ===== src/Sched/Mlfq/Inv.antt =====
-- What every step of a run keeps: the processes agree with the CPUs and have a level.
use operating_system_lab_pro.Prelude.{
  ℕ, zero, suc, ◌+◌, ◌-◌, ◌<◌, ◌≡◌, refl, sym, ap, ◌∙◌, Bool, true, false, List, [], ◌∷◌, none,
  some, arith, length, map, get_elem?, set, ltb, ◌&&◌, pos, eq_ℤ, dec_ℤ, Bool-cases, Option-cases,
  inl, inr,
}
use mathlib.Core.Path.{subst}
use operating_system_lab_pro.Sched.Smp.{ready, finished, Process, Cpu, Machine, cpu_at}
use operating_system_lab_pro.Sched.Smp.Consistent.{Consistent}
use operating_system_lab_pro.Sched.Smp.Assign.{Ranked, assign-Ranked}
use operating_system_lab_pro.Sched.Smp.Update.{updated, keep-Consistent, retire-Consistent}
use operating_system_lab_pro.Sched.Smp.Every.{Every, set-Every, assign-Every}
use operating_system_lab_pro.Sched.Smp.Start.{NoneRuns, start-Consistent, lt_of_busy}
use operating_system_lab_pro.Sched.Mlfq.{
  levels, level_of, fresh_slice, is_finished, raised, boost_one, boost_all, is_boost, boosted,
  scheduled, ticked, advance, advance_all, cycle, start, after,
}
use operating_system_lab_pro.Sched.Mlfq.Boost.{boosted-Consistent}

abbrev pub HasLevel : Process → Type 0
HasLevel p = p.priority_level < levels

-- What holds between two steps.
pub record Inv (s : Machine) : Type 0 where
  pub consistent : Consistent s
  pub levelled : Every HasLevel s.procs

boost_one-levelled :
    (j : ℕ) (s : Machine) → Every HasLevel s.procs → Every HasLevel (boost_one j s).procs
unfolding boost_one
boost_one-levelled j s h = elim (Option-cases (get_elem? s.procs j)) [
  | inl e ↦
      let same : (boost_one j s).procs ≡ s.procs = ground arith in
      subst (Every HasLevel) (sym same) h
  | inr (p, e) ↦ elim (Bool-cases (is_finished p.state)) [
    | inl over ↦
        let same : (boost_one j s).procs ≡ s.procs = ground arith in
        subst (Every HasLevel) (sym same) h
    | inr live ↦
        let same : (boost_one j s).procs ≡ set s.procs j (raised p) = ground arith in
        subst (Every HasLevel) (sym same) (set-Every HasLevel s.procs j (raised p) h (omega arith))
  ]
]

boost_all-levelled :
    (n j : ℕ) (s : Machine) → Every HasLevel s.procs → Every HasLevel (boost_all n j s).procs
unfolding boost_all
boost_all-levelled zero j s h = h
boost_all-levelled (suc n) j s h =
    boost_all-levelled n (j + 1) (boost_one j s) (boost_one-levelled j s h)

boosted-levelled :
    (now : ℕ) (s : Machine) → Every HasLevel s.procs → Every HasLevel (boosted now s).procs
unfolding boosted
boosted-levelled now s h = elim (Bool-cases (is_boost now)) [
  | inl e ↦ rw e (boost_all-levelled (length s.procs) 0 s h)
  | inr e ↦ rw e h
]

module _ (now : ℕ) (s : Machine) (v : Inv s) where
  abbrev pub AllRanked : Machine → Type 0
  AllRanked t = Ranked level_of levels now (length t.cpus) t

  pub scheduled-Ranked : AllRanked (scheduled now s)
  unfolding scheduled
  scheduled-Ranked =
      let t = boosted now s in
      let (w, size) =
        assign-Ranked level_of fresh_slice levels now (λ p i. refl) (λ p. refl) (length t.cpus) 0 t
          (omega arith)
          (record {
            consistent = boosted-Consistent now s v.consistent;
            best = λ k lt. absurd (omega arith);
            full = λ k lt. absurd (omega arith);
          }) in
      rw size w

  pub scheduled-levelled : Every HasLevel (scheduled now s).procs
  unfolding scheduled
  scheduled-levelled =
      let t = boosted now s in
      assign-Every HasLevel level_of fresh_slice levels now (λ p i h. h) (λ p h. h) (length t.cpus)
        0 t (boosted-levelled now s v.levelled)

  scheduled-Inv : Inv (scheduled now s)
  scheduled-Inv = record { consistent = scheduled-Ranked.consistent; levelled = scheduled-levelled }

module _ (now i : ℕ) (s : Machine) (count : ℕ) (v : Inv s) where
  abbrev next : Machine
  next = (advance now i s count).0

  advance_idle : (cpu_at s i).current ≡ none → next ≡ s
  unfolding advance
  advance_idle e = ground arith

  module _ (r : ℕ) (p : Process) (e : (cpu_at s i).current ≡ some r)
      (at : get_elem? s.procs r ≡ some p) where
    abbrev gone : Process
    gone = record p {
      remaining_time = dec_ℤ p.remaining_time;
      state = finished;
      completion_time = now + 1;
    }

    abbrev demoted : Process
    demoted = record p {
      remaining_time = dec_ℤ p.remaining_time;
      priority_level = p.priority_level + 1;
      state = ready;
    }

    abbrev worked : Process
    worked = record p { remaining_time = dec_ℤ p.remaining_time }

    abbrev cpu : Cpu
    cpu = ticked (cpu_at s i) p

    abbrev off : Cpu
    off = record cpu { current = none }

    abbrev ends : Bool
    ends = eq_ℤ (dec_ℤ p.remaining_time) (pos 0)

    abbrev slice_ends : Bool
    slice_ends = ltb p.priority_level (levels - 1) && eq_ℤ cpu.quantum_left (pos 0)

    advance_ends : ends ≡ true → next ≡ updated s i off r gone
    unfolding advance
    advance_ends h = ground arith

    advance_demotes : ends ≡ false → slice_ends ≡ true → next ≡ updated s i off r demoted
    unfolding advance
    advance_demotes h h' = ground arith

    advance_works : ends ≡ false → slice_ends ≡ false → next ≡ updated s i cpu r worked
    unfolding advance
    advance_works h h' = ground arith

    cpu_current : cpu.current ≡ some r
    cpu_current = ground arith

    update-Inv :
        (c : Cpu) (q : Process)
        → Consistent (updated s i c r q)
        → HasLevel q
        → Inv (updated s i c r q)
    update-Inv c q w h = record {
      consistent = w;
      levelled = set-Every HasLevel s.procs r q v.levelled h;
    }

    busy-Inv : Inv next
    busy-Inv = elim (Bool-cases ends) [
      | inl h ↦ subst Inv (sym (advance_ends h)) (
          update-Inv off gone
            (retire-Consistent v.consistent i off r gone p e at (lt_of_busy s i r e)
              (λ d. absurd (cc)) refl)
            (v.levelled r p at))
      | inr h ↦ elim (Bool-cases slice_ends) [
        | inl h' ↦ subst Inv (sym (advance_demotes h h')) (
            update-Inv off demoted
              (retire-Consistent v.consistent i off r demoted p e at (lt_of_busy s i r e)
                (λ d. absurd (cc)) refl)
              (ground arith))
        | inr h' ↦ subst Inv (sym (advance_works h h')) (
            update-Inv cpu worked
              (keep-Consistent v.consistent i cpu r worked p e at refl refl cpu_current)
              (v.levelled r p at))
      ]
    ]

  advance-Inv : Inv next
  advance-Inv = elim (Option-cases (cpu_at s i).current) [
    | inl e ↦ subst Inv (sym (advance_idle e)) v
    | inr (r, e) ↦ let run = v.consistent.running_of_cpu i r e in busy-Inv r run.proc e run.at
  ]

advance_all-Inv :
    (now n i : ℕ) (s : Machine) (count : ℕ) → Inv s → Inv (advance_all now n i s count).0
unfolding advance_all
advance_all-Inv now zero i s count v = v
advance_all-Inv now (suc n) i s count v =
    advance_all-Inv now n (i + 1) (advance now i s count).0 (advance now i s count).1
      (advance-Inv now i s count v)

cycle-Inv : (now : ℕ) (s : Machine) (count : ℕ) → Inv s → Inv (cycle now s count).0
unfolding cycle
cycle-Inv now s count v =
    advance_all-Inv now (length (scheduled now s).cpus) 0 (scheduled now s) count
      (scheduled-Inv now s v)

raised-at :
    (ps : List Process) (j : ℕ) (q : Process)
    → get_elem? (map raised ps) j ≡ some q
    → (p : Process) × (get_elem? ps j ≡ some p) × (q ≡ raised p)
raised-at [] j q e = absurd (cc)
raised-at (p ∷ ps) zero q e = (p, refl, ground arith)
raised-at (p ∷ ps) (suc j) q e = raised-at ps j q e

start-Inv : (p : List Process) (cpus : ℕ) → NoneRuns p → Inv (start p cpus)
unfolding start
start-Inv p cpus h = record {
  consistent = start-Consistent (map raised p) cpus (λ j q e run.
      let (o, at, same) = raised-at p j q e in
      h j o at (ap (λ (x : Process). x.state) (sym same) ∙ run));
  levelled = λ j q e. let (o, at, same) = raised-at p j q e in rw same (omega arith);
}

pub after-Inv : (n : ℕ) (p : List Process) (cpus : ℕ) → NoneRuns p → Inv (after n p cpus).0
unfolding after
after-Inv zero p cpus h = start-Inv p cpus h
after-Inv (suc n) p cpus h =
    cycle-Inv n (after n p cpus).0 (after n p cpus).1 (after-Inv n p cpus h)
