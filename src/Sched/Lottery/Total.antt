-- ===== src/Sched/Lottery/Total.antt =====
-- The simulation as a whole: it ends, and everybody gets the burst that was asked for.
use mathlib.Core.Path.{subst}
use operating_system_lab_pro.Prelude.{
  All, ℕ, zero, suc, ◌+◌, ◌≤◌, ◌<◌, ◌≡◌, refl, ap, ◌∙◌, true, false, List, [], ◌∷◌, ◌++◌, some,
  arith, length, length-append, get_elem?, map, set, sum_by, occurrences, ℤ, pos, pos_part,
  Bool-cases, inl, inr,
}
use operating_system_lab_pro.Sched.Lottery.{
  max_proc, gantt_size, Proc, Sim, served, Outcome, finished, simulate, read_procs, run_lottery,
  pick_winner, count_tickets, all_done,
}
use operating_system_lab_pro.Sched.Lottery.Round.{
  IsFair, Inv, left, next, next-Inv, next-work, next-bursts,
}
use operating_system_lab_pro.Sched.Lottery.Draw.{pick_winner_total}

pub some_tickets :
    (ps : List Proc)
    → all_done ps ≡ false
    → ((i : ℕ) (p : Proc) → get_elem? ps i ≡ some p → 0 < p.tickets)
    → 0 < count_tickets ps
unfolding all_done count_tickets
some_tickets [] e h = absurd (cc)
some_tickets (p ∷ ps) e h = elim (Bool-cases p.done) [
  | inl done ↦ let rest = some_tickets ps (ground arith) (λ i q at. h (suc i) q at) in ground arith
  | inr active ↦ let mine = h 0 p refl in ground arith
]

pub done_of_all_done :
    (ps : List Proc) (i : ℕ) (p : Proc)
    → all_done ps ≡ true
    → get_elem? ps i ≡ some p
    → p.done ≡ true
unfolding all_done
done_of_all_done [] i p e at = absurd (cc)
done_of_all_done (q ∷ ps) zero p e at = ground arith
done_of_all_done (q ∷ ps) (suc i) p e at = done_of_all_done ps i p (ground arith) at

pub no_work :
    (ps : List Proc)
    → ((i : ℕ) (p : Proc) → get_elem? ps i ≡ some p → pos_part p.remaining ≡ 0)
    → sum_by left ps ≡ 0
unfolding sum_by
no_work [] h = refl
no_work (p ∷ ps) h =
    let mine = h 0 p refl in let rest = no_work ps (λ i q at. h (suc i) q at) in omega arith

pub simulate_round :
    (fuel : ℕ) (rand : ℕ → ℕ) (s : Sim) (w : ℕ) (p : Proc)
    → all_done s.procs ≡ false
    → 0 < count_tickets s.procs
    → pick_winner s.procs (count_tickets s.procs) (rand s.tick) ≡ some w
    → get_elem? s.procs w ≡ some p
    → length s.gantt < gantt_size
    → simulate (suc fuel) rand s
      ≡ simulate fuel rand (record {
        procs = set s.procs w (served p s.tick);
        gantt = s.gantt ++ (p.pid ∷ []);
        tick = s.tick + 1;
      })
unfolding simulate
simulate_round fuel rand s w p more pool e at room = ground (arith, more, pool, e, at, room)

-- How the loop ends, from a state with the invariant.
record Ends (s : Sim) (o : Outcome) : Type 0 where
  last : Sim
  reached : o ≡ finished last
  inv : Inv last
  complete : all_done last.procs ≡ true
  drawn : length last.gantt ≡ length s.gantt + sum_by left s.procs
  bursts : map (λ p. p.burst) last.procs ≡ map (λ p. p.burst) s.procs

simulate-Ends :
    (fuel : ℕ) (rand : ℕ → ℕ) (s : Sim)
    → Inv s
    → length s.gantt + sum_by left s.procs ≤ gantt_size
    → sum_by left s.procs < fuel
    → Ends s (simulate fuel rand s)
unfolding simulate
simulate-Ends zero rand s v room h = absurd (omega arith)
simulate-Ends (suc fuel) rand s v room h = elim (Bool-cases (all_done s.procs)) [
  | inl done ↦ rw done (record {
    last = s;
    reached = refl;
    inv = v;
    complete = done;
    bursts = refl;
    drawn = omega (
      arith,
      no_work s.procs
          (λ i p at. ap pos_part ((v.fair i p at).ended (done_of_all_done s.procs i p done at)).0),
    );
  })
  | inr more ↦
      let tickets = some_tickets s.procs more (λ i p at. (v.fair i p at).has_ticket) in
      let (w, e, o) = pick_winner_total s.procs (rand s.tick) tickets in
      let p = o.owner in
      let work = next-work v w p o.at o.active in
      let r =
        simulate-Ends fuel rand (next v w p o.at o.active) (next-Inv v w p o.at o.active)
          (omega (arith, room, work, length-append s.gantt (p.pid ∷ [])))
          (omega (arith, h, work)) in
      record {
        last = r.last;
        reached =
            simulate_round fuel rand s w p more tickets e o.at (omega (arith, room, work))
            ∙ r.reached;
        inv = r.inv;
        complete = r.complete;
        bursts = r.bursts ∙ next-bursts v w p o.at o.active;
        drawn = omega (arith, r.drawn, work, length-append s.gantt (p.pid ∷ []));
      }
]

-- The input: at least one tick of work and one ticket for each process.
abbrev pub IsInput : ℤ × ℕ → Type 0
IsInput (b, t) = (b ≡ pos (pos_part b)) × (0 < pos_part b) × (0 < t)

abbrev pub total_burst : List (ℤ × ℕ) → ℕ
total_burst input = sum_by (λ (x : ℤ × ℕ). pos_part x.0) input

read_procs-IsFair :
    (input : List (ℤ × ℕ)) (j i : ℕ) (p : Proc)
    → All IsInput input
    → get_elem? (read_procs j input) i ≡ some p
    → IsFair [] (j + i) p
unfolding read_procs occurrences
read_procs-IsFair [] j i p h at = absurd (cc)
read_procs-IsFair ((b, t) ∷ rest) j zero p h at = ground (arith, h.0)
read_procs-IsFair ((b, t) ∷ rest) j (suc i) p h at =
    let r = read_procs-IsFair rest (j + 1) i p h.1 at in
    let e : j + 1 + i ≡ j + suc i = omega arith in subst (λ n. IsFair [] n p) e r

pub sum_by-read_procs :
    (input : List (ℤ × ℕ)) (j : ℕ) → sum_by left (read_procs j input) ≡ total_burst input
unfolding read_procs sum_by
sum_by-read_procs [] j = refl
sum_by-read_procs ((b, t) ∷ rest) j = ap (λ n. pos_part b + n) (sum_by-read_procs rest (j + 1))

bursts-read_procs :
    (input : List (ℤ × ℕ)) (j : ℕ)
    → map (λ p. p.burst) (read_procs j input) ≡ map (λ (x : ℤ × ℕ). x.0) input
unfolding read_procs
bursts-read_procs [] j = refl
bursts-read_procs ((b, t) ∷ rest) j = ap (λ r. b ∷ r) (bursts-read_procs rest (j + 1))

-- What `run_lottery` leaves for a valid input.
pub record IsSchedule (input : List (ℤ × ℕ)) (s : Sim) : Type 0 where
  -- The table still holds the bursts that were read.
  pub bursts : map (λ p. p.burst) s.procs ≡ map (λ (x : ℤ × ℕ). x.0) input
  -- The chart has one entry for each tick of work.
  pub chart : length s.gantt ≡ total_burst input
  -- Every process is done, has as many entries in the chart as its burst, and its turnaround time is
  -- between its burst and the length of the chart: no waiting time is negative.
  pub each :
      (i : ℕ) (p : Proc)
      → get_elem? s.procs i ≡ some p
      → (p.done ≡ true)
        × (occurrences p.pid s.gantt ≡ pos_part p.burst)
        × (pos_part p.burst ≤ p.finish_time)
        × (p.finish_time ≤ total_burst input)

read-IsFair :
    (input : List (ℤ × ℕ)) (i : ℕ) (p : Proc)
    → All IsInput input
    → get_elem? (read_procs 0 input) i ≡ some p
    → IsFair [] i p
read-IsFair input i p h at =
    let e : 0 + i ≡ i = omega arith in
    subst (λ n. IsFair [] n p) e (read_procs-IsFair input 0 i p h at)

done_share :
    (input : List (ℤ × ℕ)) (s : Sim) {i : ℕ} {p : Proc}
    → length s.gantt ≡ total_burst input
    → IsFair s.gantt i p
    → p.done ≡ true
    → (p.done ≡ true)
      × (occurrences p.pid s.gantt ≡ pos_part p.burst)
      × (pos_part p.burst ≤ p.finish_time)
      × (p.finish_time ≤ total_burst input)
done_share input s {p = p} chart f done =
    let (empty, enough, in_chart) = f.ended done in
    let none_left : pos_part p.remaining ≡ 0 = ap pos_part empty in
    (done, omega (arith, f.shares, none_left), enough, omega (arith, chart, in_chart))

pub read-Inv :
    (input : List (ℤ × ℕ))
    → All IsInput input
    → Inv (record { procs = read_procs 0 input; gantt = []; tick = 0 })
read-Inv input h = record { clock = refl; fair = λ i p at. read-IsFair input i p h at }

-- If there are 1 to 10 processes, each with a positive burst and a ticket, and the bursts add up to at most the 500
-- entries of the chart, then whatever `rand` returns the simulation ends, within as many rounds
-- as the bursts add up to, and leaves a complete schedule.
pub run_lottery_finishes :
    (fuel : ℕ) (rand : ℕ → ℕ) (input : List (ℤ × ℕ))
    → 1 ≤ length input
    → length input ≤ max_proc
    → All IsInput input
    → total_burst input ≤ gantt_size
    → total_burst input < fuel
    → (s : Sim) × (run_lottery fuel rand input ≡ finished s) × IsSchedule input s
unfolding run_lottery
run_lottery_finishes fuel rand input some_rows few h fits lt =
    let work = sum_by-read_procs input 0 in
    let first : Sim = record { procs = read_procs 0 input; gantt = []; tick = 0 } in
    let r =
      simulate-Ends fuel rand first (read-Inv input h) (omega (arith, work, fits))
        (omega (arith, work, lt)) in
    let chart : length r.last.gantt ≡ total_burst input = omega (arith, work, r.drawn) in
    (
      r.last,
      ground (arith, some_rows, few, r.reached),
      record {
        bursts = r.bursts ∙ bursts-read_procs input 0;
        chart = chart;
        each = λ i p at.
            done_share input r.last chart (r.inv.fair i p at)
              (done_of_all_done r.last.procs i p r.complete at);
      },
    )
