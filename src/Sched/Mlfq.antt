-- ===== src/Sched/Mlfq.antt =====
-- Multilevel feedback queues on several CPUs (Bhanu, src/mlfq.c).
pub mod Boost
pub mod Inv
pub mod Levels
mod Tests
use operating_system_lab_pro.Prelude.{
  ℕ, zero, suc, ◌+◌, ◌-◌, ◌%◌, Bool, true, false, ◌&&◌, List, Option, none, some, get_elem?, set,
  length, map, ltb, ◌==◌, if◌then◌else◌, ℤ, pos, eq_ℤ, dec_ℤ, ◌≡◌,
}
use operating_system_lab_pro.Sched.Smp.{
  State, ready, running, finished, Process, Cpu, Machine, idle_cpu, cpu_at, start_cpus,
}
use operating_system_lab_pro.Sched.Smp.Assign.{assign}

abbrev pub levels : ℕ
levels = 3

abbrev pub boost_cycle : ℕ
boost_cycle = 30

-- `TQ`; a level from `LEVELS` on does not occur.
abbrev pub time_slice : ℕ → ℤ
time_slice zero = pos 4
time_slice (suc zero) = pos 8
time_slice (suc (suc level)) = pos 100000

abbrev pub level_of : Process → ℕ
level_of p = p.priority_level

-- A process that starts gets the time slice of its level.
abbrev pub fresh_slice : Process → ℤ → ℤ
fresh_slice p left = time_slice p.priority_level

abbrev pub is_finished : State → Bool
is_finished ready = false
is_finished running = false
is_finished finished = true

abbrev pub raised : Process → Process
raised p = record p { priority_level = 0 }

-- The CPU of a RUNNING process gets a new time slice; such a process has a CPU.
abbrev pub renewed : Machine → Process → List Cpu
renewed s p = elim p.state [
  | ready ↦ s.cpus
  | finished ↦ s.cpus
  | running ↦ elim p.cpu_id [
    | none ↦ s.cpus
    | some c ↦ set s.cpus c (record (cpu_at s c) { quantum_left = time_slice 0 })
  ]
]

-- The body of the boost's loop, for process `j`.
unfoldable pub boost_one : (j : ℕ) → Machine → Machine
boost_one j s = elim (get_elem? s.procs j) [
  | none ↦ s
  | some p ↦
      if is_finished p.state
      then s
      else record { procs = set s.procs j (raised p); cpus = renewed s p }
]

-- The processes from `j` on, `n` of them.
unfoldable pub boost_all : (n j : ℕ) → Machine → Machine
unfolding boost_one
boost_all zero j s = s
boost_all (suc n) j s = boost_all n (j + 1) (boost_one j s)

-- `cycle > 0 && cycle % BOOST_CYCLE == 0`
abbrev pub is_boost : ℕ → Bool
is_boost now = ltb 0 now && now % boost_cycle == 0

unfoldable pub boosted : (now : ℕ) → Machine → Machine
unfolding boost_all
boosted now s = if is_boost now then boost_all (length s.procs) 0 s else s

-- The processes on their CPUs in cycle `now`: each CPU searches anew.
unfoldable pub scheduled : (now : ℕ) → Machine → Machine
unfolding boosted
scheduled now s =
    let t = boosted now s in assign level_of fresh_slice levels now (length t.cpus) 0 t

-- CPU `i` after a tick of its process `p`: the lowest level has no time slice.
abbrev pub ticked : Cpu → Process → Cpu
ticked c p =
    if ltb p.priority_level (levels - 1)
    then record c { quantum_left = dec_ℤ c.quantum_left }
    else c

-- CPU `i` works for a cycle: its process may finish, or go down a level at the end of its slice.
unfoldable pub advance : (now i : ℕ) → Machine → ℕ → Machine × ℕ
advance now i s count = elim (cpu_at s i).current [
  | none ↦ (s, count)
  | some r ↦ elim (get_elem? s.procs r) [
    | none ↦ (s, count)
    | some p ↦
        let left = dec_ℤ p.remaining_time in
        let c = ticked (cpu_at s i) p in
        if eq_ℤ left (pos 0)
        then (
          record {
            procs =
                set s.procs r
                  (record p { remaining_time = left; state = finished; completion_time = now + 1 });
            cpus = set s.cpus i (record c { current = none });
          },
          count + 1,
        )
        else if ltb p.priority_level (levels - 1) && eq_ℤ c.quantum_left (pos 0)
        then (
          record {
            procs = set s.procs r (record p {
              remaining_time = left;
              priority_level = p.priority_level + 1;
              state = ready;
            });
            cpus = set s.cpus i (record c { current = none });
          },
          count,
        )
        else (
          record {
            procs = set s.procs r (record p { remaining_time = left });
            cpus = set s.cpus i c;
          },
          count,
        )
  ]
]

unfoldable pub advance_all : (now n i : ℕ) → Machine → ℕ → Machine × ℕ
unfolding advance
advance_all now zero i s count = (s, count)
advance_all now (suc n) i s count =
    let (t, count') = advance now i s count in advance_all now n (i + 1) t count'

-- The body of the while loop.
unfoldable pub cycle : (now : ℕ) → Machine → ℕ → Machine × ℕ
unfolding scheduled advance_all
cycle now s count = let t = scheduled now s in advance_all now (length t.cpus) 0 t count

-- The while loop, on fuel: the processes at its end and the number of cycles.
unfoldable pub run_loop : (fuel now : ℕ) → Machine → (count : ℕ) → Option (ℕ × List Process)
unfolding cycle
run_loop zero now s count = none
run_loop (suc fuel) now s count =
    let (t, count') = cycle now s count in
    let rest = run_loop fuel (now + 1) t count' in
    if ltb count (length s.procs) then rest else some (now, s.procs)

-- All processes start on the highest level.
unfoldable pub start : List Process → (cpus : ℕ) → Machine
unfolding start_cpus
start p cpus = record { procs = map raised p; cpus = start_cpus cpus }

unfoldable pub run_mlfq : (fuel : ℕ) → List Process → (cpus : ℕ) → Option (ℕ × List Process)
unfolding run_loop start
run_mlfq fuel p cpus = run_loop fuel 0 (start p cpus) 0

-- The machine after `n` cycles, and how many processes have finished.
unfoldable pub after : (n : ℕ) → List Process → (cpus : ℕ) → Machine × ℕ
unfolding cycle start
after zero p cpus = (start p cpus, 0)
after (suc n) p cpus = let (s, count) = after n p cpus in cycle n s count
