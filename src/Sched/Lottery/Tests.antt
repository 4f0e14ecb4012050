-- ===== src/Sched/Lottery/Tests.antt =====
-- Lottery scheduling at concrete inputs.
use operating_system_lab_pro.Prelude.{
  ℕ, ◌*◌, ◌+◌, ◌%◌, ◌<◌, ◌≤◌, ◌≡◌, refl, arith, List, [], ◌∷◌, some, true, ℤ, pos, sum_by, length,
}
use operating_system_lab_pro.Sched.Lottery.{
  gantt_size, Sim, invalid, finished, overrun, run_lottery, read_procs, pick_winner, count_tickets,
  all_done,
}
use operating_system_lab_pro.Sched.Lottery.Draw.{Owns, pick_winner_total}
use operating_system_lab_pro.Sched.Lottery.Total.{total_burst, IsSchedule, run_lottery_finishes}
use operating_system_lab_pro.Sched.Lottery.Overrun.{endless, run_lottery_overruns}

abbrev input : List (ℤ × ℕ)
input = (pos 2, 10) ∷ (pos 1, 5) ∷ []

abbrev rand : ℕ → ℕ
rand k = 7 * k + 12

-- Ticket 12 of 15 is the second process's; then the first has all tickets.
gantt_runs :
    run_lottery 4 rand input
    ≡ finished (record {
      procs =
          record {
            pid = 1;
            burst = pos 2;
            tickets = 10;
            remaining = pos 0;
            done = true;
            finish_time = 3;
          }
          ∷ record {
            pid = 2;
            burst = pos 1;
            tickets = 5;
            remaining = pos 0;
            done = true;
            finish_time = 1;
          }
          ∷ [];
      gantt = 2 ∷ 1 ∷ 1 ∷ [];
      tick = 3;
    })
unfolding run_lottery all_done count_tickets pick_winner
gantt_runs = refl

positive : 0 < count_tickets (read_procs 0 input)
unfolding count_tickets read_procs
positive = omega arith

pick_winner_total_example :
    (w : ℕ) × (pick_winner (read_procs 0 input) (count_tickets (read_procs 0 input)) 27 ≡ some w)
    × Owns (read_procs 0 input) 0 (27 % count_tickets (read_procs 0 input)) w
pick_winner_total_example = pick_winner_total (read_procs 0 input) 27 positive

enough : total_burst input < 4
unfolding sum_by
enough = omega arith

fits : total_burst input ≤ gantt_size
unfolding sum_by
fits = omega arith

run_lottery_finishes_example :
    (s : Sim) × (run_lottery 4 rand input ≡ finished s) × IsSchedule input s
run_lottery_finishes_example =
    run_lottery_finishes 4 rand input (omega arith) (omega arith)
      ((refl, omega arith, omega arith), ((refl, omega arith, omega arith), tt)) fits enough

no_processes : run_lottery 4 rand [] ≡ invalid
unfolding run_lottery
no_processes = refl

abbrev no_work : List (ℤ × ℕ)
no_work = (pos 2, 10) ∷ (pos 0, 5) ∷ []

run_lottery_overruns_example :
    (s : Sim) × (run_lottery 501 rand no_work ≡ overrun s) × (length s.gantt ≡ gantt_size)
run_lottery_overruns_example =
    run_lottery_overruns 501 rand no_work (omega arith) (omega arith)
      (omega arith, (omega arith, tt)) (endless 1 (pos 0) 5 refl (omega arith)) (omega arith)
