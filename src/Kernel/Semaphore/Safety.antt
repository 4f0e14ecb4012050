-- ===== src/Kernel/Semaphore/Safety.antt =====
-- What holds of the semaphores in every reachable state.
use operating_system_lab_pro.Prelude.{ℕ, ◌+◌, ◌-◌, ◌<◌, ◌≤◌, ◌≡◌, ◌↔◌, arith, List, pos}
use operating_system_lab_pro.Kernel.Semaphore.{
  num_sems, asleep, SemState, count, place, Event, acquired, wait_turn, Reach,
}
use operating_system_lab_pro.Kernel.Semaphore.Inv.{Inv, num_acquired, num_posted, Reach-Inv}

module _ {n : ℕ} {s : SemState} {es : List Event} (r : Reach n s es) where
  inv : Inv s es
  inv = Reach-Inv r

  -- In every reachable state a process sleeps on a semaphore only while its count is 0.
  pub no_lost_wakeup : (i id : ℕ) → place s i ≡ asleep id → count s id ≡ pos 0
  no_lost_wakeup i id h = inv.starved i id h

  -- In every reachable state each semaphore has let through one wait more than there were posts, at
  -- most, and its count is what is left of these.
  pub exclusion :
      (id : ℕ)
      → id < num_sems
      → (num_acquired id es ≤ 1 + num_posted id es)
        × (count s id ≡ pos (1 + num_posted id es - num_acquired id es))
  exclusion id lt = ground (arith, inv.balance id lt, inv.nonneg id)

  -- A wait at its test goes through exactly if there were as many posts as completed waits, or more.
  pub wait_turn_iff :
      (i id : ℕ)
      → id < num_sems
      → ((wait_turn s i id).1 ≡ acquired id) ↔ (num_acquired id es ≤ num_posted id es)
  unfolding wait_turn
  wait_turn_iff i id lt = ground (arith, inv.balance id lt, inv.nonneg id)
