-- ===== src/Sched/Lottery.antt =====
-- shajith/src/lottery.c: lottery scheduling on one CPU. `rand()` is a sequence of numbers, which the
-- k-th draw reads at k. Ticket numbers are not negative; bursts may be anything that `scanf` reads.
pub mod Draw
pub mod Round
pub mod Total
pub mod Overrun
mod Tests
use operating_system_lab_pro.Prelude.{
  ℕ, zero, suc, ◌+◌, ◌%◌, Bool, true, false, not, ◌&&◌, ◌||◌, List, [], ◌∷◌, ◌++◌, Option, none,
  some, get_elem?, set, length, ltb, leb, ◌==◌, if◌then◌else◌, ℤ, pos, eq_ℤ, dec_ℤ,
}

abbrev pub max_proc : ℕ
max_proc = 10

abbrev pub gantt_size : ℕ
gantt_size = 500

-- `struct proc`
pub record Proc : Type 0 where
  pub pid : ℕ
  pub burst : ℤ
  pub tickets : ℕ
  pub remaining : ℤ
  pub done : Bool
  pub finish_time : ℕ

-- The loop of `pick_winner` from index `i` on.
pub winner_from : (r sum i : ℕ) → List Proc → Option ℕ
winner_from r sum i [] = none
winner_from r sum i (p ∷ ps) =
    let sum' = if p.done then sum else sum + p.tickets in
    let rest = winner_from r sum' (i + 1) ps in if not p.done && ltb r sum' then some i else rest

-- `pick_winner`, where `draw` is what `rand()` returns and `total` is not 0.
pub pick_winner : List Proc → (total draw : ℕ) → Option ℕ
unfolding winner_from
pick_winner ps total draw = winner_from (draw % total) 0 0 ps

pub count_tickets : List Proc → ℕ
count_tickets [] = 0
count_tickets (p ∷ ps) = (if p.done then 0 else p.tickets) + count_tickets ps

pub all_done : List Proc → Bool
all_done [] = true
all_done (p ∷ ps) = p.done && all_done ps

-- The local variables of `run_lottery`; `gantt` holds its first `glen` entries.
pub record Sim : Type 0 where
  pub procs : List Proc
  pub gantt : List ℕ
  pub tick : ℕ

-- The winner, at its tick `now`.
abbrev pub served : Proc → ℕ → Proc
served p now =
    let left = dec_ℤ p.remaining in
    if eq_ℤ left (pos 0)
    then record p { remaining = left; done = true; finish_time = now + 1 }
    else record p { remaining = left }

-- `overrun`: the next entry of the chart would be written behind the end of the array, which C leaves undefined.
pub data Outcome : Type 0 where
  invalid : Outcome
  finished : Sim → Outcome
  overrun : Sim → Outcome
  no_winner : Sim → Outcome
  division_by_zero : Sim → Outcome
  out_of_fuel : Outcome

-- The loop of `run_lottery`; a round draws once and takes one tick.
pub simulate : ℕ → (ℕ → ℕ) → Sim → Outcome
simulate zero rand s = out_of_fuel
simulate (suc fuel) rand s =
    if all_done s.procs
    then finished s
    else let total = count_tickets s.procs in
      if total == 0 then division_by_zero s else elim (pick_winner s.procs total (rand s.tick)) [
        | none ↦ no_winner s
        | some w ↦ elim (get_elem? s.procs w) [
          | none ↦ no_winner s
          | some p ↦ elim (leb gantt_size (length s.gantt)) [
            | true ↦ overrun s
            | false ↦ simulate fuel rand (record {
              procs = set s.procs w (served p s.tick);
              gantt = s.gantt ++ (p.pid ∷ []);
              tick = s.tick + 1;
            })
          ]
        ]
      ]

-- The process table as it is read in: `(burst, tickets)` of each process.
pub read_procs : ℕ → List (ℤ × ℕ) → List Proc
read_procs i [] = []
read_procs i ((b, t) ∷ rest) =
    record { pid = i + 1; burst = b; tickets = t; remaining = b; done = false; finish_time = 0 }
    ∷ read_procs (i + 1) rest

-- `run_lottery`; `n` is the number of rows of the input.
pub run_lottery : ℕ → (ℕ → ℕ) → List (ℤ × ℕ) → Outcome
unfolding read_procs simulate
run_lottery fuel rand input =
    if ltb (length input) 1 || ltb max_proc (length input)
    then invalid
    else simulate fuel rand (record { procs = read_procs 0 input; gantt = []; tick = 0 })
