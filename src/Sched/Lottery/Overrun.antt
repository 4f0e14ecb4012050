-- ===== src/Sched/Lottery/Overrun.antt =====
-- Input with more work than the chart has room for, or with a process that is never done: the chart overflows.
use operating_system_lab_pro.Prelude.{
  All, ℕ, zero, suc, ◌+◌, ◌<◌, ◌≤◌, ◌≡◌, refl, sym, ap, false, List, [], ◌∷◌, ◌++◌, some, arith,
  length, length-append, get_elem?, get_elem?-set, lt_of_get_elem?, set, sum_by, ℤ, pos, pos_part,
  ◌≤ℤ◌, Bool-cases, inl, inr, ℕ_discrete,
}
use mathlib.Core.Path.{subst}
use operating_system_lab_pro.Sched.Lottery.{
  max_proc, gantt_size, Proc, Sim, served, overrun, Outcome, simulate, read_procs, run_lottery,
  pick_winner, count_tickets, all_done,
}
use operating_system_lab_pro.Sched.Lottery.Draw.{pick_winner_total}
use operating_system_lab_pro.Sched.Lottery.Round.{Inv, left, next-Inv, next-work}
use operating_system_lab_pro.Sched.Lottery.Total.{
  done_of_all_done, some_tickets, no_work, simulate_round, IsInput, total_burst, read-Inv,
  sum_by-read_procs,
}

-- Process `i` is not done and has nothing left to do.
record IsStuck (i : ℕ) (ps : List Proc) : Type 0 where
  proc : Proc
  at : get_elem? ps i ≡ some proc
  active : proc.done ≡ false
  spent : proc.remaining ≤ℤ pos 0

served-stuck :
    (p : Proc) (now : ℕ)
    → p.done ≡ false
    → p.remaining ≤ℤ pos 0
    → ((served p now).done ≡ false) × ((served p now).remaining ≤ℤ pos 0)
served-stuck p now e h = ground arith

set-IsStuck :
    {i : ℕ} {ps : List Proc} (w now : ℕ) (p : Proc)
    → IsStuck i ps
    → get_elem? ps w ≡ some p
    → IsStuck i (set ps w (served p now))
set-IsStuck {i} {ps} w now p k at = elim (ℕ_discrete w i) [
  | yes same ↦
      let e : p ≡ k.proc = ground (arith, at, k.at, same) in
      let q = served-stuck p now (ground (arith, e, k.active)) (ground (arith, e, k.spent)) in
      record {
        proc = served p now;
        at = ground (arith, get_elem?-set ps w i (served p now), lt_of_get_elem? ps w p at, same);
        active = q.0;
        spent = q.1;
      }
  | no other ↦ record {
    proc = k.proc;
    at = ground (arith, get_elem?-set ps w i (served p now), k.at, other);
    active = k.active;
    spent = k.spent;
  }
]

not_all_done : {i : ℕ} {ps : List Proc} → IsStuck i ps → all_done ps ≡ false
not_all_done {i} {ps} k = elim (Bool-cases (all_done ps)) [
  | inl e ↦ absurd (cc (done_of_all_done ps i k.proc e k.at, k.active))
  | inr e ↦ e
]

-- The loop has filled the chart and has to write on.
abbrev Overruns : Outcome → Type 0
Overruns o = (s : Sim) × (o ≡ overrun s) × (length s.gantt ≡ gantt_size)

-- Any reason to go on, which a round keeps, and tickets to draw from.
module _ (Busy : Sim → Type 0)
    (more : (s : Sim) → Busy s → length s.gantt ≤ gantt_size → all_done s.procs ≡ false)
    (tickets : (s : Sim)
      → Busy s
      → (i : ℕ) (p : Proc) → get_elem? s.procs i ≡ some p
      → 0 < p.tickets)
    (keeps : (s : Sim) (w : ℕ) (p : Proc)
      → Busy s
      → get_elem? s.procs w ≡ some p
      → p.done ≡ false
      → Busy (record {
        procs = set s.procs w (served p s.tick);
        gantt = s.gantt ++ (p.pid ∷ []);
        tick = s.tick + 1;
      })) where
  full :
      (fuel : ℕ) (rand : ℕ → ℕ) (s : Sim) (w : ℕ) (p : Proc)
      → all_done s.procs ≡ false
      → 0 < count_tickets s.procs
      → pick_winner s.procs (count_tickets s.procs) (rand s.tick) ≡ some w
      → get_elem? s.procs w ≡ some p
      → length s.gantt ≡ gantt_size
      → simulate (suc fuel) rand s ≡ overrun s
  unfolding simulate
  full fuel rand s w p e pool won at size = ground (arith, e, pool, won, at, size)

  simulate-Overruns :
      (fuel : ℕ) (rand : ℕ → ℕ) (s : Sim)
      → Busy s
      → length s.gantt ≤ gantt_size
      → gantt_size < length s.gantt + fuel
      → Overruns (simulate fuel rand s)
  simulate-Overruns zero rand s b room h = absurd (omega (arith, room, h))
  simulate-Overruns (suc fuel) rand s b room h =
      let e = more s b room in
      let pool = some_tickets s.procs e (tickets s b) in
      let (w, won, o) = pick_winner_total s.procs (rand s.tick) pool in
      let p = o.owner in
      elim (ℕ_discrete (length s.gantt) gantt_size) [
        | yes size ↦ (s, full fuel rand s w p e pool won o.at size, size)
        | no ne ↦
            let below : length s.gantt < gantt_size = omega (arith, room, ne) in
            let s' : Sim = record {
              procs = set s.procs w (served p s.tick);
              gantt = s.gantt ++ (p.pid ∷ []);
              tick = s.tick + 1;
            } in
            let longer = length-append s.gantt (p.pid ∷ []) in
            subst Overruns (sym (simulate_round fuel rand s w p e pool won o.at below)) (
              simulate-Overruns fuel rand s' (keeps s w p b o.at o.active)
                (omega (arith, longer, below)) (omega (arith, longer, h)))
      ]

-- A process that is never done, and tickets for all.
record Stuck (i : ℕ) (s : Sim) : Type 0 where
  stuck : IsStuck i s.procs
  tickets : (j : ℕ) (p : Proc) → get_elem? s.procs j ≡ some p → 0 < p.tickets

served_tickets :
    (ps : List Proc) (w now : ℕ) (p : Proc) (j : ℕ) (q : Proc)
    → get_elem? ps w ≡ some p
    → ((j : ℕ) (p : Proc) → get_elem? ps j ≡ some p → 0 < p.tickets)
    → get_elem? (set ps w (served p now)) j ≡ some q
    → 0 < q.tickets
served_tickets ps w now p j q at h e = elim (ℕ_discrete w j) [
  | yes same ↦
      let mine = h w p at in
      ground (arith, get_elem?-set ps w j (served p now), lt_of_get_elem? ps w p at, same, e, mine)
  | no other ↦ h j q (ground (arith, get_elem?-set ps w j (served p now), other, e))
]

-- More work than room.
record Long (s : Sim) : Type 0 where
  inv : Inv s
  long : gantt_size < length s.gantt + sum_by left s.procs

Long-more : (s : Sim) → Long s → length s.gantt ≤ gantt_size → all_done s.procs ≡ false
Long-more s h room = elim (Bool-cases (all_done s.procs)) [
  | inr e ↦ e
  | inl e ↦
      let idle =
        no_work s.procs (λ i p at.
          ap pos_part ((h.inv.fair i p at).ended (done_of_all_done s.procs i p e at)).0) in
      absurd (omega (arith, h.long, room, idle))
]

read_procs-IsStuck :
    (input : List (ℤ × ℕ)) (j i : ℕ) (b : ℤ) (t : ℕ)
    → get_elem? input i ≡ some (b, t)
    → b ≤ℤ pos 0
    → IsStuck i (read_procs j input)
unfolding read_procs
read_procs-IsStuck [] j i b t at h = absurd (cc)
read_procs-IsStuck ((c, u) ∷ rest) j zero b t at h = record {
  proc = record {
    pid = j + 1;
    burst = c;
    tickets = u;
    remaining = c;
    done = false;
    finish_time = 0;
  };
  at = refl;
  active = refl;
  spent = ground arith;
}
read_procs-IsStuck ((c, u) ∷ rest) j (suc i) b t at h =
    let k = read_procs-IsStuck rest (j + 1) i b t at h in
    record { proc = k.proc; at = k.at; active = k.active; spent = k.spent }

read_tickets :
    (input : List (ℤ × ℕ)) (j i : ℕ) (p : Proc)
    → All (λ (x : ℤ × ℕ). 0 < x.1) input
    → get_elem? (read_procs j input) i ≡ some p
    → 0 < p.tickets
unfolding read_procs
read_tickets [] j i p h at = absurd (cc)
read_tickets ((b, t) ∷ rest) j zero p h at = ground (arith, h.0, at)
read_tickets ((b, t) ∷ rest) j (suc i) p h at = read_tickets rest (j + 1) i p h.1 at

-- Input that the chart has no room for: a process with a burst of 0 or less, or positive bursts of more than 500
-- in all.
pub data TooLong (input : List (ℤ × ℕ)) : Type 0 where
  endless : (i : ℕ) (b : ℤ) (t : ℕ) → get_elem? input i ≡ some (b, t) → b ≤ℤ pos 0 → TooLong input
  long : All IsInput input → gantt_size < total_burst input → TooLong input

first-Overruns :
    (fuel : ℕ) (rand : ℕ → ℕ) (input : List (ℤ × ℕ))
    → All (λ (x : ℤ × ℕ). 0 < x.1) input
    → TooLong input
    → gantt_size < fuel
    → Overruns (simulate fuel rand (record { procs = read_procs 0 input; gantt = []; tick = 0 }))
first-Overruns fuel rand input drawn (endless i b t at low) enough =
    simulate-Overruns (Stuck i) (λ s h room. not_all_done h.stuck) (λ s h. h.tickets)
      (λ s w p h at active. record {
        stuck = set-IsStuck w s.tick p h.stuck at;
        tickets = λ j q e. served_tickets s.procs w s.tick p j q at h.tickets e;
      })
      fuel rand (record { procs = read_procs 0 input; gantt = []; tick = 0 })
      (record {
        stuck = read_procs-IsStuck input 0 i b t at low;
        tickets = λ j p e. read_tickets input 0 j p drawn e;
      })
      (omega arith) (omega (arith, enough))
first-Overruns fuel rand input drawn (long h more) enough =
    simulate-Overruns Long Long-more (λ s h i p at. (h.inv.fair i p at).has_ticket)
      (λ s w p h at active. record {
        inv = next-Inv h.inv w p at active;
        long =
            omega
              (arith, h.long, next-work h.inv w p at active, length-append s.gantt (p.pid ∷ []));
      })
      fuel rand (record { procs = read_procs 0 input; gantt = []; tick = 0 })
      (record { inv = read-Inv input h; long = omega (arith, more, sum_by-read_procs input 0) })
      (omega arith) (omega (arith, enough))

-- If there are 1 to 10 processes with a ticket each, and one has a burst of 0 or less, or all are positive and add up
-- to more than 500, then whatever `rand` returns `run_lottery` fills the 500 entries of the
-- chart, without an end, and goes on to write behind it.
pub run_lottery_overruns :
    (fuel : ℕ) (rand : ℕ → ℕ) (input : List (ℤ × ℕ))
    → 1 ≤ length input
    → length input ≤ max_proc
    → All (λ (x : ℤ × ℕ). 0 < x.1) input
    → TooLong input
    → gantt_size < fuel
    → (s : Sim) × (run_lottery fuel rand input ≡ overrun s) × (length s.gantt ≡ gantt_size)
unfolding run_lottery
run_lottery_overruns fuel rand input some_rows few drawn too_long enough =
    let (s, e, size) = first-Overruns fuel rand input drawn too_long enough in
    (s, ground (arith, some_rows, few, e), size)
