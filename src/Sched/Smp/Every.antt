-- ===== src/Sched/Smp/Every.antt =====
-- What holds of every process of the table, whatever CPU it is on.
use operating_system_lab_pro.Prelude.{
  ℕ, zero, suc, ◌+◌, ◌≡◌, sym, List, some, arith, length, get_elem?, get_elem?-set, set, ltb, ◌==◌,
  ◌&&◌, ℤ, Bool-cases, Option-cases, inl, inr,
}
use mathlib.Core.Path.{subst}
use operating_system_lab_pro.Sched.Smp.{
  Process, Machine, pick, started, stopped, cpu_at, dispatch, take_turn,
}
use operating_system_lab_pro.Sched.Smp.Assign.{one_turn, assign}

abbrev pub Every : (Process → Type 0) → List Process → Type 0
Every P ps = (j : ℕ) (p : Process) → get_elem? ps j ≡ some p → P p

module _ (P : Process → Type 0) where
  pub set-Every :
      (ps : List Process) (i : ℕ) (q : Process) → Every P ps → P q → Every P (set ps i q)
  set-Every ps i q h hq j p e = elim (Bool-cases (i == j && ltb i (length ps))) [
    | inl here ↦ let same : p ≡ q = ground (arith, get_elem?-set ps i j q) in subst P (sym same) hq
    | inr there ↦ h j p (ground (arith, get_elem?-set ps i j q))
  ]

module _ (P : Process → Type 0) (key : Process → ℕ) (quantum : Process → ℤ → ℤ) (bound now : ℕ)
    (keeps_started : (p : Process) (i : ℕ) → P p → P (started p i now))
    (keeps_stopped : (p : Process) → P p → P (stopped p)) where
  abbrev Keeps : Machine → Type 0
  Keeps s = Every P s.procs

  dispatch-Every :
      (s : Machine) (i b : ℕ) (p : Process)
      → Every P s.procs
      → P p
      → Keeps (dispatch quantum now s i b p)
  dispatch-Every s i b p h hp = set-Every P s.procs b (started p i now) h (keeps_started p i hp)

  -- The outcomes of a turn.
  data TurnCase (s : Machine) (i b : ℕ) : Type 0 where
    stays : take_turn key quantum now i b s ≡ s → TurnCase s i b
    starts :
        (p : Process)
        → get_elem? s.procs b ≡ some p
        → take_turn key quantum now i b s ≡ dispatch quantum now s i b p
        → TurnCase s i b
    preempts :
        (p q : Process) (r : ℕ)
        → get_elem? s.procs b ≡ some p
        → get_elem? s.procs r ≡ some q
        → take_turn key quantum now i b s
          ≡ dispatch quantum now (record s { procs = set s.procs r (stopped q) }) i b p
        → TurnCase s i b

  turn_cases : (s : Machine) (i b : ℕ) → TurnCase s i b
  unfolding take_turn
  turn_cases s i b = elim (Option-cases (get_elem? s.procs b)) [
    | inl gone ↦ stays (ground arith)
    | inr (p, at) ↦ elim (Option-cases (cpu_at s i).current) [
      | inl free ↦ starts p at (ground arith)
      | inr (r, busy) ↦ elim (Option-cases (get_elem? s.procs r)) [
        | inl lost ↦ stays (ground arith)
        | inr (q, at_r) ↦ elim (Bool-cases (ltb (key p) (key q))) [
          | inl less ↦ preempts p q r at at_r (ground arith)
          | inr more ↦ stays (ground arith)
        ]
      ]
    ]
  ]

  case-Every :
      (s : Machine) (i b : ℕ)
      → Every P s.procs
      → TurnCase s i b
      → Keeps (take_turn key quantum now i b s)
  case-Every s i b h (stays e) = subst Keeps (sym e) h
  case-Every s i b h (starts p at e) = subst Keeps (sym e) (dispatch-Every s i b p h (h b p at))
  case-Every s i b h (preempts p q r at at_r e) = subst Keeps (sym e) (
      dispatch-Every (record s { procs = set s.procs r (stopped q) }) i b p
        (set-Every P s.procs r (stopped q) h (keeps_stopped q (h r q at_r))) (h b p at))

  turn-Every : (s : Machine) (i : ℕ) → Every P s.procs → Keeps (one_turn key quantum bound now i s)
  unfolding one_turn
  turn-Every s i h = elim (Option-cases (pick key bound now s.procs)) [
    | inl e ↦
        let same : one_turn key quantum bound now i s ≡ s = ground arith in subst Keeps (sym same) h
    | inr (b, e) ↦
        let taken : one_turn key quantum bound now i s ≡ take_turn key quantum now i b s =
          ground arith in
        subst Keeps (sym taken) (case-Every s i b h (turn_cases s i b))
  ]

  pub assign-Every :
      (n i : ℕ) (s : Machine) → Every P s.procs → Keeps (assign key quantum bound now n i s)
  unfolding assign
  assign-Every zero i s h = h
  assign-Every (suc n) i s h =
      assign-Every n (i + 1) (one_turn key quantum bound now i s) (turn-Every s i h)
