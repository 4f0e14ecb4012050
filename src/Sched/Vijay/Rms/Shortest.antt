-- ===== src/Sched/Vijay/Rms/Shortest.antt =====
-- Every time unit goes to a released process of the shortest period.
use operating_system_lab_pro.Prelude.{
  ℕ, zero, suc, ◌+◌, ◌≤◌, ◌<◌, ◌≡◌, ◌⊎◌, inl, inr, refl, ap, ◌∙◌, true, ◌&&◌, List, [], ◌∷◌, ◌++◌,
  Option, none, some, arith, length, length-append, get_elem?, set, ltb, Bool-cases,
}
use operating_system_lab_pro.Sched.Vijay.Lottery.{Process, TraceEntry}
use operating_system_lab_pro.Sched.Vijay.Rms.{
  Task, can_run, select_from, Sim, worked, execute, release_all, rms_scheduling,
}

module _ (time : ℕ) where
  -- No task that can run has a period below `bound`.
  abbrev pub NoneBelow : ℕ → List Task → Type 0
  NoneBelow bound ts =
      (j : ℕ) (q : Task) → get_elem? ts j ≡ some q → can_run time q ≡ true → bound ≤ q.proc.period

  -- Task `w` can run, its period is below `bound`, and no task that can run has a shorter one.
  pub record IsShortest (bound : ℕ) (ts : List Task) (w : ℕ) (t : Task) : Type 0 where
    pub at : get_elem? ts w ≡ some t
    pub runs : can_run time t ≡ true
    pub small : t.proc.period < bound
    pub least : NoneBelow t.proc.period ts

  NoneBelow-cons :
      (bound : ℕ) (t : Task) (ts : List Task)
      → (can_run time t ≡ true → bound ≤ t.proc.period)
      → NoneBelow bound ts
      → NoneBelow bound (t ∷ ts)
  NoneBelow-cons bound t ts h rest zero q at runs = ground (arith, h)
  NoneBelow-cons bound t ts h rest (suc j) q at runs = rest j q at runs

  IsShortest-cons :
      (bound b : ℕ) (t : Task) (ts : List Task) (d : ℕ) (u : Task)
      → b ≤ bound
      → (can_run time t ≡ true → b ≤ t.proc.period)
      → IsShortest b ts d u
      → IsShortest bound (t ∷ ts) (suc d) u
  IsShortest-cons bound b t ts d u le h s = record {
    at = s.at;
    runs = s.runs;
    small = omega (arith, s.small);
    least = NoneBelow-cons u.proc.period t ts (λ r. omega (arith, h r, s.small)) s.least;
  }

  abbrev Select : (selected : Option ℕ) → (bound i : ℕ) → List Task → Option ℕ → Type 0
  Select selected bound i ts r =
      ((r ≡ selected) × NoneBelow bound ts)
      ⊎ ((d : ℕ) × (u : Task) × (r ≡ some (i + d)) × IsShortest bound ts d u)

  Select-cases :
      (ts : List Task) (selected : Option ℕ) (bound i : ℕ)
      → Select selected bound i ts (select_from time selected bound i ts)
  unfolding select_from
  Select-cases [] selected bound i = inl (refl, λ j q at. absurd (cc))
  Select-cases (t ∷ ts) selected bound i =
      elim (Bool-cases (can_run time t && ltb t.proc.period bound)) [
        | inl better ↦ rw better (elim (Select-cases ts (some i) t.proc.period (i + 1)) [
          | inl (e, h) ↦ inr (
            0,
            t,
            e ∙ ap some (omega arith),
            record {
              at = refl;
              runs = ground arith;
              small = ground arith;
              least = NoneBelow-cons t.proc.period t ts (λ r. omega arith) h;
            },
          )
          | inr (d, u, e, s) ↦ inr (
            suc d,
            u,
            e ∙ ap some (omega arith),
            IsShortest-cons bound t.proc.period t ts d u (ground arith) (λ r. omega arith) s,
          )
        ])
        | inr worse ↦ rw worse (elim (Select-cases ts selected bound (i + 1)) [
          | inl (e, h) ↦ inl (e, NoneBelow-cons bound t ts (λ r. ground arith) h)
          | inr (d, u, e, s) ↦ inr (
            suc d,
            u,
            e ∙ ap some (omega arith),
            IsShortest-cons bound bound t ts d u (omega arith) (λ r. ground arith) s,
          )
        ])
      ]

abbrev record_of : (time : ℕ) → Option ℕ → Sim → List TraceEntry
record_of time pid s = s.trace ++ (record { time = time; pid = pid } ∷ [])

-- What a time unit does to `s`, in which the releases have taken place.
pub data Spent (time : ℕ) (s t : Sim) : Type 0 where
  idle :
      NoneBelow time 99999 s.tasks → t ≡ record s { trace = record_of time none s } → Spent time s t
  runs :
      (w : ℕ) (u : Task)
      → IsShortest time 99999 s.tasks w u
      → t ≡ record { tasks = set s.tasks w (worked u); trace = record_of time (some u.proc.pid) s }
      → Spent time s t

execute_lem : (time : ℕ) (s : Sim) → Spent time s (execute time s)
unfolding execute
execute_lem time s = elim (Select-cases time s.tasks none 99999 0) [
  | inl (e, h) ↦ idle h (ground arith)
  | inr (d, u, e, sh) ↦
      let found : select_from time none 99999 0 s.tasks ≡ some d = e ∙ ap some (omega arith) in
      runs d u sh (ground (arith, sh.at))
]

-- In every time unit, when the releases of that time have taken place: if some process can run whose
-- period is below 99999, one of the shortest period of all that can run gets the unit, and the trace
-- its `pid`; else the unit is idle, in the trace too.
pub rms-Spent :
    (procs : List Process) (time : ℕ)
    → Spent time (release_all time (rms_scheduling procs time)) (rms_scheduling procs (suc time))
unfolding rms_scheduling
rms-Spent procs time = execute_lem time (release_all time (rms_scheduling procs time))

-- The trace has one entry for each time unit.
pub length-rms_scheduling :
    (procs : List Process) (time : ℕ) → length (rms_scheduling procs time).trace ≡ time
unfolding rms_scheduling release_all
length-rms_scheduling procs zero = refl
length-rms_scheduling procs (suc time) =
    one_more (rms-Spent procs time) (length-rms_scheduling procs time)
  where
    one_more :
        {t : Sim}
        → Spent time (release_all time (rms_scheduling procs time)) t
        → length (rms_scheduling procs time).trace ≡ time
        → length t.trace ≡ suc time
    one_more (idle h e) l =
        ap (λ (r : Sim). length r.trace) e
        ∙ omega (
          arith,
          l,
          length-append (rms_scheduling procs time).trace (record { time = time; pid = none } ∷ []),
        )
    one_more (runs w u h e) l =
        ap (λ (r : Sim). length r.trace) e
        ∙ omega (
          arith,
          l,
          length-append (rms_scheduling procs time).trace
              (record { time = time; pid = some u.proc.pid } ∷ []),
        )
