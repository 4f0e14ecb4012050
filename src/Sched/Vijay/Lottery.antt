-- ===== src/Sched/Vijay/Lottery.antt =====
-- Vijay/algorithms.c, `lottery_scheduling`. `rand()` is a sequence of numbers, of which each draw reads
-- the next; an entry of the trace is its time and its process, where `none` is the -1 of an idle CPU.
pub mod Work
pub mod Ends
use operating_system_lab_pro.Prelude.{
  ℕ, zero, suc, ◌+◌, ◌-◌, ◌%◌, ◌≤◌, ◌<◌, ◌≡◌, ◌≢◌, refl, sym, ap, ◌∙◌, Bool, true, false, ◌&&◌,
  List, [], ◌∷◌, ◌++◌, Option, none, some, arith, length, length-append, get_elem?, set, ltb, leb,
  ◌==◌, if◌then◌else◌, ℤ, pos, pos_part, dec_ℤ, ltb_ℤ, Bool-cases, Option-cases, inl, inr,
  ℕ_discrete,
}

-- `Process` of algorithms.h.
pub record Process : Type 0 where
  pub pid : ℕ
  pub burst_time : ℤ
  pub arrival_time : ℕ
  pub tickets : ℕ
  pub period : ℕ
  pub remaining_time : ℤ

-- `TraceEntry`, without the algorithm's name.
pub record TraceEntry : Type 0 where
  pub time : ℕ
  pub pid : Option ℕ

-- `remaining_time > 0 && arrival_time <= time`
abbrev pub active : (time : ℕ) → Process → Bool
active time p = ltb_ℤ (pos 0) p.remaining_time && leb p.arrival_time time

unfoldable pub total_tickets : (time : ℕ) → List Process → ℕ
total_tickets time [] = 0
total_tickets time (p ∷ ps) = (if active time p then p.tickets else 0) + total_tickets time ps

-- The loop that looks for the winner, from index `i` on.
unfoldable pub owner_from : (time running winner i : ℕ) → List Process → Option ℕ
owner_from time running winner i [] = none
owner_from time running winner i (p ∷ ps) =
    let winner' = if active time p then winner + p.tickets else winner in
    let rest = owner_from time running winner' (i + 1) ps in
    if active time p then if ltb running winner' then some i else rest else rest

pub record Sim : Type 0 where
  pub procs : List Process
  pub trace : List TraceEntry

abbrev pub served : Process → Process
served p = record p { remaining_time = dec_ℤ p.remaining_time }

-- Process `w` runs for a time unit.
unfoldable pub serve : (time w : ℕ) → Sim → Sim
serve time w s = elim (get_elem? s.procs w) [
  | none ↦ s
  | some p ↦ record {
    procs = set s.procs w (served p);
    trace = s.trace ++ (record { time = time; pid = some p.pid } ∷ []);
  }
]

-- The loop over the time, with `n` units left; it stops when no tickets are in play.
unfoldable pub lottery_loop : (rand : ℕ → ℕ) → (n time draws : ℕ) → Sim → Sim
unfolding total_tickets owner_from serve
lottery_loop rand zero time draws s = s
lottery_loop rand (suc n) time draws s =
    let total = total_tickets time s.procs in
    elim (total == 0) [
      | true ↦ s
      | false ↦ elim (owner_from time (rand draws % total) 0 0 s.procs) [
        | none ↦ lottery_loop rand n (time + 1) (draws + 1) s
        | some w ↦ lottery_loop rand n (time + 1) (draws + 1) (serve time w s)
      ]
    ]

unfoldable pub lottery_scheduling : (rand : ℕ → ℕ) → List Process → (total_time : ℕ) → Sim
unfolding lottery_loop
lottery_scheduling rand procs total_time =
    lottery_loop rand total_time 0 0 (record { procs = procs; trace = [] })
