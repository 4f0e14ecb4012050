-- ===== src/Sched/Edf/Global.antt =====
-- EDF is global: in every cycle of a run the CPUs have the processes of the earliest deadlines.
use operating_system_lab_pro.Prelude.{
  ℕ, zero, suc, ◌+◌, ◌≤◌, ◌<◌, ◌≡◌, refl, sym, ap, ◌∙◌, true, false, List, Option, none, some,
  arith, length, get_elem?, set, set-get_or, if◌then◌else◌, pos, eq_ℤ, dec_ℤ, Bool-cases,
  Option-cases, inl, inr,
}
use mathlib.Core.Path.{subst}
use operating_system_lab_pro.Sched.Smp.{
  finished, Process, Cpu, Machine, eligible, idle_cpu, cpu_at, take_turn,
}
use operating_system_lab_pro.Sched.Smp.Consistent.{Consistent}
use operating_system_lab_pro.Sched.Smp.Assign.{assign, Ranked, assign-Ranked, turn_none, turn_some}
use operating_system_lab_pro.Sched.Smp.Start.{NoneRuns, start-Consistent, apart_lem, lt_of_busy}
use operating_system_lab_pro.Sched.Smp.Update.{updated, keep-Consistent, retire-Consistent}
use operating_system_lab_pro.Sched.Edf.{
  latest, deadline_of, no_quantum, pick_earliest_deadline, takes, turns, advance, advance_all,
  scheduled, cycle, after,
}

abbrev assign_edf : (now n i : ℕ) → Machine → Machine
assign_edf now n i s = assign deadline_of no_quantum latest now n i s

module _ (now : ℕ) where
  stays :
      (i b : ℕ) (s : Machine) → takes i b s ≡ false → take_turn deadline_of no_quantum now i b s ≡ s
  unfolding takes take_turn
  stays i b s e = ground arith

  next_best :
      (i b : ℕ) (s : Machine)
      → pick_earliest_deadline now s ≡ some b
      → (if takes i b s
          then pick_earliest_deadline now (take_turn deadline_of no_quantum now i b s)
          else some b)
        ≡ pick_earliest_deadline now (take_turn deadline_of no_quantum now i b s)
  next_best i b s e = elim (Bool-cases (takes i b s)) [
    | inl yes! ↦ rw yes! refl
    | inr no! ↦ rw (no!, stays i b s no!) (sym e)
  ]

  assign_none :
      (n i : ℕ) (s : Machine) → pick_earliest_deadline now s ≡ none → assign_edf now n i s ≡ s
  unfolding assign
  assign_none zero i s e = refl
  assign_none (suc n) i s e =
      ap (assign_edf now n (i + 1))
        (turn_none deadline_of no_quantum latest now (λ p j. refl) (λ p. refl) i s e)
      ∙ assign_none n (i + 1) s e

  -- The choice at hand is always the one that a new search would find.
  turns-assign :
      (n i : ℕ) (best : Option ℕ) (s : Machine)
      → best ≡ pick_earliest_deadline now s
      → turns now n i best s ≡ assign_edf now n i s
  unfolding turns assign
  turns-assign zero i best s e = refl
  turns-assign (suc n) i none s e = sym (assign_none (suc n) i s (sym e))
  turns-assign (suc n) i (some b) s e =
      turns-assign n (i + 1)
        (if takes i b s
          then pick_earliest_deadline now (take_turn deadline_of no_quantum now i b s)
          else some b)
        (take_turn deadline_of no_quantum now i b s) (next_best i b s (sym e))
      ∙ ap (assign_edf now n (i + 1)) (
          sym (turn_some deadline_of no_quantum latest now (λ p j. refl) (λ p. refl) i b s (sym e)))

  abbrev AllRanked : Machine → Machine → Type 0
  AllRanked s t = Ranked deadline_of latest now (length s.cpus) t × (length t.cpus ≡ length s.cpus)

  scheduled-Ranked : (s : Machine) → Consistent s → AllRanked s (scheduled now s)
  unfolding scheduled
  scheduled-Ranked s c =
      subst (AllRanked s)
        (sym (turns-assign (length s.cpus) 0 (pick_earliest_deadline now s) s refl))
        (assign-Ranked deadline_of no_quantum latest now (λ p i. refl) (λ p. refl) (length s.cpus) 0
          s (omega arith)
          (record {
            consistent = c;
            best = λ k lt. absurd (omega arith);
            full = λ k lt. absurd (omega arith);
          }))

-- What EDF promises of the machine `s` in cycle `now`.
pub record IsEdf (now : ℕ) (s : Machine) : Type 0 where
  -- A process that runs is on one CPU alone.
  pub apart : (i k r : ℕ) → (cpu_at s i).current ≡ some r → (cpu_at s k).current ≡ some r → i ≡ k
  -- No process that waits, of a deadline below the largest, has an earlier one than a process that runs.
  pub earliest :
      (i r j : ℕ) (p q : Process)
      → (cpu_at s i).current ≡ some r
      → get_elem? s.procs r ≡ some p
      → get_elem? s.procs j ≡ some q
      → eligible now q ≡ true
      → q.deadline < latest
      → p.deadline ≤ q.deadline
  -- No such process waits while a CPU is idle.
  pub none_idle :
      (i j : ℕ) (q : Process)
      → i < length s.cpus
      → (cpu_at s i).current ≡ none
      → get_elem? s.procs j ≡ some q
      → eligible now q ≡ true
      → latest ≤ q.deadline

scheduled-IsEdf : (now : ℕ) (s : Machine) → Consistent s → IsEdf now (scheduled now s)
scheduled-IsEdf now s c =
    let (v, size) = scheduled-Ranked now s c in
    record {
      apart = apart_lem (scheduled now s) v.consistent;
      earliest = λ i r j p q e1 e2 e3 e4 e5.
          (v.best i (omega (arith, lt_of_busy (scheduled now s) i r e1, size))).least r p j q e1 e2
            e3 e4 e5;
      none_idle = λ i j q lt e1 e2 e3. v.full i (omega (arith, size)) e1 j q e2 e3;
    }

module _ (now i : ℕ) (s : Machine) (count : ℕ) (c : Consistent s) where
  advance_idle : (cpu_at s i).current ≡ none → (advance now i s count).0 ≡ s
  unfolding advance
  advance_idle e = ground arith

  module _ (r : ℕ) (p : Process) (e : (cpu_at s i).current ≡ some r)
      (at : get_elem? s.procs r ≡ some p) where
    abbrev gone : Process
    gone = record p {
      remaining_time = dec_ℤ p.remaining_time;
      state = finished;
      completion_time = now + 1;
    }

    abbrev worked : Process
    worked = record p { remaining_time = dec_ℤ p.remaining_time }

    abbrev off : Cpu
    off = record (cpu_at s i) { current = none }

    advance_ends :
        eq_ℤ (dec_ℤ p.remaining_time) (pos 0) ≡ true
        → (advance now i s count).0 ≡ updated s i off r gone
    unfolding advance
    advance_ends h = ground arith

    advance_works :
        eq_ℤ (dec_ℤ p.remaining_time) (pos 0) ≡ false
        → (advance now i s count).0 ≡ record s { procs = set s.procs r worked }
    unfolding advance
    advance_works h = ground arith

    same_cpus : set s.cpus i (cpu_at s i) ≡ s.cpus
    same_cpus = set-get_or s.cpus i idle_cpu

    busy-Consistent : Consistent ((advance now i s count).0)
    busy-Consistent = elim (Bool-cases (eq_ℤ (dec_ℤ p.remaining_time) (pos 0))) [
      | inl h ↦
          subst Consistent (sym (advance_ends h))
            (retire-Consistent c i off r gone p e at (lt_of_busy s i r e) (λ d. absurd (cc)) refl)
      | inr h ↦ subst Consistent (sym (advance_works h)) (
          subst (λ cs. Consistent (record { procs = set s.procs r worked; cpus = cs })) same_cpus
            (keep-Consistent c i (cpu_at s i) r worked p e at refl refl e))
    ]

  advance-Consistent : Consistent ((advance now i s count).0)
  advance-Consistent = elim (Option-cases (cpu_at s i).current) [
    | inl e ↦ subst Consistent (sym (advance_idle e)) c
    | inr (r, e) ↦ let run = c.running_of_cpu i r e in busy-Consistent r run.proc e run.at
  ]

advance_all-Consistent :
    (now n i : ℕ) (s : Machine) (count : ℕ)
    → Consistent s
    → Consistent (advance_all now n i s count).0
unfolding advance_all
advance_all-Consistent now zero i s count c = c
advance_all-Consistent now (suc n) i s count c =
    advance_all-Consistent now n (i + 1) (advance now i s count).0 (advance now i s count).1
      (advance-Consistent now i s count c)

cycle-Consistent :
    (now : ℕ) (s : Machine) (count : ℕ) → Consistent s → Consistent (cycle now s count).0
unfolding cycle
cycle-Consistent now s count c =
    advance_all-Consistent now (length (scheduled now s).cpus) 0 (scheduled now s) count
      (scheduled-Ranked now s c).0.consistent

after-Consistent :
    (n : ℕ) (p : List Process) (cpus : ℕ) → NoneRuns p → Consistent (after n p cpus).0
unfolding after
after-Consistent zero p cpus h = start-Consistent p cpus h
after-Consistent (suc n) p cpus h =
    cycle-Consistent n (after n p cpus).0 (after n p cpus).1 (after-Consistent n p cpus h)

-- In every cycle `n` of a run of EDF, from a table where nobody runs yet, after the CPUs have had
-- their turns: no process is on two CPUs, no waiting process that has arrived, of a deadline below
-- 100000, has an earlier deadline than a process that runs, and none of these waits while a CPU is idle.
pub after-IsEdf :
    (n : ℕ) (p : List Process) (cpus : ℕ) → NoneRuns p → IsEdf n (scheduled n (after n p cpus).0)
after-IsEdf n p cpus h = scheduled-IsEdf n (after n p cpus).0 (after-Consistent n p cpus h)
