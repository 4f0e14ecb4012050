-- ===== src/Sched/Vijay/Lottery/Ends.antt =====
-- When a lottery finishes its processes, and when it stops too early.
use operating_system_lab_pro.Prelude.{
  ℕ, zero, suc, ◌+◌, ◌≤◌, ◌<◌, ◌≡◌, refl, sym, false, List, [], ◌∷◌, some, arith, length, get_elem?,
  get_elem?-set, set, ℤ, pos, negsuc, pos_part, ltb_ℤ, sum_by,
}
use mathlib.Core.Path.{subst}
use operating_system_lab_pro.Sched.Vijay.Lottery.{
  Process, total_tickets, Sim, served, serve, lottery_loop, lottery_scheduling,
}
use operating_system_lab_pro.Sched.Vijay.Lottery.Work.{
  total_left, serve_lem, Next, stop, wins, Next-step, loop-Conserved,
}

-- Whatever `rand` returns and whatever the processes are: each entry of the trace is one time unit of
-- work less that is left, and there are `total_time` entries at most.
pub lottery_work :
    (rand : ℕ → ℕ) (procs : List Process) (total_time : ℕ)
    → let s = lottery_scheduling rand procs total_time in
      (total_left s.procs + length s.trace ≡ total_left procs) × (length s.trace ≤ total_time)
unfolding lottery_scheduling
lottery_work rand procs total_time =
    let (c, b) = loop-Conserved rand total_time 0 0 (record { procs = procs; trace = [] }) in
    (omega (arith, c), omega (arith, b))

-- Every process has arrived and has tickets.
abbrev pub AllIn : (time : ℕ) → List Process → Type 0
AllIn time ps =
    (j : ℕ) (p : Process) → get_elem? ps j ≡ some p → (p.arrival_time ≤ time) × (0 < p.tickets)

none_left :
    (time : ℕ) (ps : List Process) → AllIn time ps → total_tickets time ps ≡ 0 → total_left ps ≡ 0
unfolding total_tickets total_left sum_by
none_left time [] h e = refl
none_left time (p ∷ ps) h e =
    let (arrived, has) = h 0 p refl in
    let nothing : pos_part p.remaining_time ≡ 0 = no_rest p.remaining_time (ground arith) in
    omega (arith, nothing, none_left time ps (λ j q at. h (suc j) q at) (omega arith))
  where
    no_rest : (v : ℤ) → ltb_ℤ (pos 0) v ≡ false → pos_part v ≡ 0
    no_rest (pos zero) f = refl
    no_rest (pos (suc n)) f = ground arith
    no_rest (negsuc n) f = refl

AllIn-served :
    (time w : ℕ) (ps : List Process) (p : Process)
    → get_elem? ps w ≡ some p
    → AllIn time ps
    → AllIn (time + 1) (set ps w (served p))
AllIn-served time w ps p at h j q e =
    ground (arith, get_elem?-set ps w j (served p), h w p at, h j q)

module _ (rand : ℕ → ℕ) where
  abbrev Emptied : Sim → Type 0
  Emptied t = total_left t.procs ≡ 0

  finish_step :
      (n time draws : ℕ) (s : Sim)
      → AllIn time s.procs
      → total_left s.procs ≤ suc n
      → Next rand n time draws s
      → ((time draws : ℕ) (s : Sim)
          → AllIn time s.procs
          → total_left s.procs ≤ n
          → Emptied (lottery_loop rand n time draws s))
      → Emptied (lottery_loop rand (suc n) time draws s)
  finish_step n time draws s h le (stop e t) ih = subst Emptied (sym t) (none_left time s.procs h e)
  finish_step n time draws s h le (wins w p at on t) ih =
      let (l, tr, ps) = serve_lem time w s p at on in
      subst Emptied (sym t) (
        ih (time + 1) (draws + 1) (serve time w s)
          (subst (AllIn (time + 1)) (sym ps) (AllIn-served time w s.procs p at h))
          (omega (arith, l)))

  loop_finishes :
      (n time draws : ℕ) (s : Sim)
      → AllIn time s.procs
      → total_left s.procs ≤ n
      → Emptied (lottery_loop rand n time draws s)
  unfolding lottery_loop
  loop_finishes zero time draws s h le = omega arith
  loop_finishes (suc n) time draws s h le =
      finish_step n time draws s h le (Next-step rand n time draws s) (loop_finishes n)

-- If all processes arrive at time 0 and have tickets, and the time is enough for the work, then no work
-- is left at the end, whatever `rand` returns.
pub lottery_finishes :
    (rand : ℕ → ℕ) (procs : List Process) (total_time : ℕ)
    → AllIn 0 procs
    → total_left procs ≤ total_time
    → total_left (lottery_scheduling rand procs total_time).procs ≡ 0
unfolding lottery_scheduling
lottery_finishes rand procs total_time h le =
    loop_finishes rand total_time 0 0 (record { procs = procs; trace = [] }) h le

no_tickets :
    (time : ℕ) (ps : List Process)
    → ((j : ℕ) (p : Process) → get_elem? ps j ≡ some p → time < p.arrival_time)
    → total_tickets time ps ≡ 0
unfolding total_tickets
no_tickets time [] h = refl
no_tickets time (p ∷ ps) h =
    let late = h 0 p refl in ground (arith, no_tickets time ps (λ j q at. h (suc j) q at))

-- If no process arrives at time 0, the lottery stops there: no process ever runs.
pub lottery_stops_early :
    (rand : ℕ → ℕ) (procs : List Process) (total_time : ℕ)
    → ((j : ℕ) (p : Process) → get_elem? procs j ≡ some p → 0 < p.arrival_time)
    → lottery_scheduling rand procs total_time ≡ record { procs = procs; trace = [] }
unfolding lottery_scheduling lottery_loop
lottery_stops_early rand procs zero late = refl
lottery_stops_early rand procs (suc n) late = ground (arith, no_tickets 0 procs late)
