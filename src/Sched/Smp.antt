-- ===== src/Sched/Smp.antt =====
-- What the multiprocessor simulators of Bhanu (src/edf.c, src/mlfq.c, src/types.h), Aryan and Ayush
-- (src/algorithms.c and src/types.h of each) share: processes and CPUs, the choice of the next process,
-- and a CPU's turn to take it. An index of -1 is `none`.
pub mod Pick
pub mod Consistent
pub mod Dispatch
pub mod Release
pub mod Turn
pub mod Assign
pub mod Update
pub mod Every
pub mod Start
pub mod Fill
pub mod Tick
pub mod Policy
pub mod Progress
pub mod Timely
pub mod Fresh
use operating_system_lab_pro.Prelude.{
  ℕ, zero, suc, ◌+◌, Bool, true, false, ◌&&◌, List, [], ◌∷◌, Option, none, some, get_elem?, get_or,
  set, ltb, leb, if◌then◌else◌, ℤ, pos, ◌≡◌,
}

pub data State : Type 0 where
  ready running finished : State

-- `Process`, without `wait_time_acc`, which nothing reads. Ayush's has `period` and `tickets` in place of
-- `deadline`.
pub record Process : Type 0 where
  pub id : ℕ
  pub arrival_time : ℕ
  pub burst_time : ℕ
  pub remaining_time : ℤ
  pub deadline : ℕ
  pub period : ℕ
  pub tickets : ℕ
  pub priority_level : ℕ
  pub state : State
  pub completion_time : ℕ
  pub start_time : Option ℕ
  pub cpu_id : Option ℕ

-- `CPU`, without `id`, its index, and `busy_ticks`, which stays 0.
pub record Cpu : Type 0 where
  pub current : Option ℕ
  pub quantum_left : ℤ

-- The arrays that a run works on.
pub record Machine : Type 0 where
  pub procs : List Process
  pub cpus : List Cpu

abbrev pub is_ready : State → Bool
is_ready ready = true
is_ready running = false
is_ready finished = false

-- `p[i].state == READY && p[i].arrival_time <= now`
abbrev pub eligible : ℕ → Process → Bool
eligible now p = is_ready p.state && leb p.arrival_time now

-- The loop of `pick_earliest_deadline` and of `pick_by_queue`, over a key of the process.
pub pick_from : (Process → ℕ) → (now : ℕ) → Option ℕ → (best i : ℕ) → List Process → Option ℕ
pick_from key now chosen best i [] = chosen
pick_from key now chosen best i (p ∷ ps) =
    let better = eligible now p && ltb (key p) best in
    pick_from key now (if better then some i else chosen) (if better then key p else best) (i + 1)
      ps

-- `cap` is the first value of `earliest`, or of `best_level`.
unfoldable pub pick : (Process → ℕ) → (cap now : ℕ) → List Process → Option ℕ
unfolding pick_from
pick key cap now ps = pick_from key now none cap 0 ps

abbrev pub started : Process → (cpu now : ℕ) → Process
started p cpu now = record p {
  state = running;
  cpu_id = some cpu;
  start_time = elim p.start_time [ none ↦ some now | some t ↦ some t ];
}

abbrev pub stopped : Process → Process
stopped p = record p { state = ready }

abbrev pub idle_cpu : Cpu
idle_cpu = record { current = none; quantum_left = pos 0 }

abbrev pub cpu_at : Machine → ℕ → Cpu
cpu_at s i = get_or s.cpus i idle_cpu

-- CPU `i` starts process `b`, which is `p`; `quantum` is what the algorithm gives to `p`, from what
-- the CPU had left.
abbrev pub dispatch : (Process → ℤ → ℤ) → (now : ℕ) → Machine → (i b : ℕ) → Process → Machine
dispatch quantum now s i b p = record {
  procs = set s.procs b (started p i now);
  cpus =
      set s.cpus i
        (record { current = some b; quantum_left = quantum p (cpu_at s i).quantum_left });
}

-- CPU `i` takes process `b`, if it is idle or runs a process of a greater key, which is READY then.
unfoldable pub take_turn :
    (Process → ℕ) → (Process → ℤ → ℤ) → (now : ℕ) → (i b : ℕ) → Machine → Machine
take_turn key quantum now i b s = elim (get_elem? s.procs b) [
  | none ↦ s
  | some p ↦ elim (cpu_at s i).current [
    | none ↦ dispatch quantum now s i b p
    | some r ↦ elim (get_elem? s.procs r) [
      | none ↦ s
      | some q ↦
          if ltb (key p) (key q)
          then dispatch quantum now (record s { procs = set s.procs r (stopped q) }) i b p
          else s
    ]
  ]
]

-- All CPUs are idle at first.
unfoldable pub start_cpus : (cpus : ℕ) → List Cpu
start_cpus zero = []
start_cpus (suc n) = idle_cpu ∷ start_cpus n
