-- ===== src/Sched/Vijay/Rms.antt =====
-- Vijay/algorithms.c, `rms_scheduling`. The arrays `next_deadline` and `remaining` stand beside the
-- processes, which the loop does not change.
pub mod Shortest
use operating_system_lab_pro.Prelude.{
  ℕ, zero, suc, ◌+◌, Bool, true, false, ◌&&◌, List, [], ◌∷◌, ◌++◌, Option, none, some, map,
  get_elem?, set, ltb, leb, if◌then◌else◌, ℤ, pos, dec_ℤ, ltb_ℤ,
}
use operating_system_lab_pro.Sched.Vijay.Lottery.{Process, TraceEntry}

-- A process with its entries of the two arrays.
pub record Task : Type 0 where
  pub proc : Process
  pub next_deadline : ℕ
  pub remaining : ℤ

abbrev pub first_task : Process → Task
first_task p = record {
  proc = p;
  next_deadline = p.arrival_time + p.period;
  remaining = p.burst_time;
}

-- The body of the loop of releases.
abbrev pub released : (time : ℕ) → Task → Task
released time t =
    if leb t.next_deadline time && leb t.proc.arrival_time time
    then record t { remaining = t.proc.burst_time; next_deadline = t.next_deadline + t.proc.period }
    else t

-- `remaining[i] > 0 && procs[i].arrival_time <= time`
abbrev pub can_run : (time : ℕ) → Task → Bool
can_run time t = ltb_ℤ (pos 0) t.remaining && leb t.proc.arrival_time time

-- The loop that selects, from index `i` on.
unfoldable pub select_from :
    (time : ℕ) → (selected : Option ℕ) → (shortest_period i : ℕ) → List Task → Option ℕ
select_from time selected shortest_period i [] = selected
select_from time selected shortest_period i (t ∷ ts) =
    let better = can_run time t && ltb t.proc.period shortest_period in
    select_from time (if better then some i else selected)
      (if better then t.proc.period else shortest_period) (i + 1) ts

pub record Sim : Type 0 where
  pub tasks : List Task
  pub trace : List TraceEntry

abbrev pub worked : Task → Task
worked t = record t { remaining = dec_ℤ t.remaining }

-- The selection and its time unit, after the releases.
unfoldable pub execute : (time : ℕ) → Sim → Sim
unfolding select_from
execute time s = elim (select_from time none 99999 0 s.tasks) [
  | none ↦ record s { trace = s.trace ++ (record { time = time; pid = none } ∷ []) }
  | some w ↦ elim (get_elem? s.tasks w) [
    | none ↦ s
    | some t ↦ record {
      tasks = set s.tasks w (worked t);
      trace = s.trace ++ (record { time = time; pid = some t.proc.pid } ∷ []);
    }
  ]
]

unfoldable pub release_all : (time : ℕ) → Sim → Sim
release_all time s = record s { tasks = map (released time) s.tasks }

-- The simulation after `time` time units.
unfoldable pub rms_scheduling : List Process → (time : ℕ) → Sim
unfolding execute release_all
rms_scheduling procs zero = record { tasks = map first_task procs; trace = [] }
rms_scheduling procs (suc time) = execute time (release_all time (rms_scheduling procs time))
