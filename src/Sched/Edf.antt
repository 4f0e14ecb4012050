-- ===== src/Sched/Edf.antt =====
-- Global earliest deadline first on several CPUs (Bhanu, src/edf.c).
pub mod Global
pub mod Tests
use operating_system_lab_pro.Prelude.{
  ℕ, zero, suc, ◌+◌, Bool, true, false, List, [], ◌∷◌, Option, none, some, get_elem?, set, length,
  ltb, if◌then◌else◌, ℤ, pos, eq_ℤ, dec_ℤ, ◌≡◌,
}
use operating_system_lab_pro.Sched.Smp.{
  finished, Process, Machine, pick, cpu_at, take_turn, start_cpus,
}

-- The first value of `earliest`: a deadline from here on is never chosen.
abbrev pub latest : ℕ
latest = 100000

abbrev pub deadline_of : Process → ℕ
deadline_of p = p.deadline

-- EDF leaves `time_quantum_left` alone.
abbrev pub no_quantum : Process → ℤ → ℤ
no_quantum p left = left

abbrev pub pick_earliest_deadline : (now : ℕ) → Machine → Option ℕ
pick_earliest_deadline now s = pick deadline_of latest now s.procs

-- Whether CPU `i` takes process `b`.
unfoldable pub takes : (i b : ℕ) → Machine → Bool
takes i b s = elim (cpu_at s i).current [
  | none ↦ true
  | some r ↦ elim (get_elem? s.procs r) [
    | none ↦ false
    | some q ↦ elim (get_elem? s.procs b) [ none ↦ false | some p ↦ ltb p.deadline q.deadline ]
  ]
]

-- The turns of the CPUs from `i` on, `n` of them, with `best` at hand: the next one is chosen when a
-- CPU has taken it.
unfoldable pub turns : (now n i : ℕ) → (best : Option ℕ) → Machine → Machine
unfolding takes
turns now zero i best s = s
turns now (suc n) i none s = s
turns now (suc n) i (some b) s =
    let t = take_turn deadline_of no_quantum now i b s in
    turns now n (i + 1) (if takes i b s then pick_earliest_deadline now t else some b) t

-- CPU `i` works for a cycle, in which its process may finish; the number of finished processes.
unfoldable pub advance : (now i : ℕ) → Machine → ℕ → Machine × ℕ
advance now i s count = elim (cpu_at s i).current [
  | none ↦ (s, count)
  | some r ↦ elim (get_elem? s.procs r) [
    | none ↦ (s, count)
    | some p ↦
        let left = dec_ℤ p.remaining_time in
        if eq_ℤ left (pos 0)
        then (
          record {
            procs =
                set s.procs r
                  (record p { remaining_time = left; state = finished; completion_time = now + 1 });
            cpus = set s.cpus i (record (cpu_at s i) { current = none });
          },
          count + 1,
        )
        else (record s { procs = set s.procs r (record p { remaining_time = left }) }, count)
  ]
]

-- The CPUs from `i` on, `n` of them.
unfoldable pub advance_all : (now n i : ℕ) → Machine → ℕ → Machine × ℕ
unfolding advance
advance_all now zero i s count = (s, count)
advance_all now (suc n) i s count =
    let (t, count') = advance now i s count in advance_all now n (i + 1) t count'

-- The processes on their CPUs in cycle `now`.
unfoldable pub scheduled : (now : ℕ) → Machine → Machine
unfolding turns
scheduled now s = turns now (length s.cpus) 0 (pick_earliest_deadline now s) s

-- The body of the while loop.
unfoldable pub cycle : (now : ℕ) → Machine → ℕ → Machine × ℕ
unfolding scheduled advance_all
cycle now s count = let t = scheduled now s in advance_all now (length t.cpus) 0 t count

-- The while loop, on fuel: the processes at its end and the number of cycles.
unfoldable pub run_loop : (fuel now : ℕ) → Machine → (count : ℕ) → Option (ℕ × List Process)
unfolding cycle
run_loop zero now s count = none
run_loop (suc fuel) now s count =
    let (t, count') = cycle now s count in
    let rest = run_loop fuel (now + 1) t count' in
    if ltb count (length s.procs) then rest else some (now, s.procs)

unfoldable pub run_edf : (fuel : ℕ) → List Process → (cpus : ℕ) → Option (ℕ × List Process)
unfolding run_loop start_cpus
run_edf fuel p cpus = run_loop fuel 0 (record { procs = p; cpus = start_cpus cpus }) 0

-- The machine after `n` cycles, and how many processes have finished.
unfoldable pub after : (n : ℕ) → List Process → (cpus : ℕ) → Machine × ℕ
unfolding cycle start_cpus
after zero p cpus = (record { procs = p; cpus = start_cpus cpus }, 0)
after (suc n) p cpus = let (s, count) = after n p cpus in cycle n s count
