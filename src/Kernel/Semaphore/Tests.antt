-- ===== src/Kernel/Semaphore/Tests.antt =====
-- Two processes at semaphore 3.
use operating_system_lab_pro.Prelude.{◌+◌, ◌-◌, ◌≤◌, ◌≡◌, refl, arith, List, [], ◌∷◌, pos}
use operating_system_lab_pro.Kernel.Semaphore.{
  asleep, SemState, seminit, count, place, Event, acquired, posted, silent, wait_turn, sys_sem_wait,
  sys_sem_post, wait, retry, post, Reach, start, next,
}
use operating_system_lab_pro.Kernel.Semaphore.Inv.{num_acquired, num_posted}
use operating_system_lab_pro.Kernel.Semaphore.Safety.{no_lost_wakeup, exclusion}

-- Process 0 takes the semaphore, process 1 goes to sleep.
abbrev taken : SemState
taken = (sys_sem_wait (seminit 2) 0 (pos 3)).0

abbrev contended : SemState
contended = (sys_sem_wait taken 1 (pos 3)).0

reach-contended : Reach 2 contended (silent ∷ acquired 3 ∷ [])
unfolding seminit sys_sem_wait
reach-contended = next (next start (wait 0 (pos 3) refl refl)) (wait 1 (pos 3) refl refl)

-- Process 0 posts, and process 1 goes through.
abbrev handed : SemState
handed = (wait_turn (sys_sem_post contended (pos 3)).0 1 3).0

reach-handed : Reach 2 handed (acquired 3 ∷ posted 3 ∷ silent ∷ acquired 3 ∷ [])
unfolding seminit sys_sem_wait wait_turn sys_sem_post
reach-handed =
    next (next reach-contended (post 0 (pos 3) refl refl)) (retry 1 3 refl (omega arith) refl)

sleeper_at : place contended 1 ≡ asleep 3
unfolding seminit sys_sem_wait
sleeper_at = refl

no_lost_wakeup_example : count contended 3 ≡ pos 0
no_lost_wakeup_example = no_lost_wakeup reach-contended 1 3 sleeper_at

abbrev log : List Event
log = acquired 3 ∷ posted 3 ∷ silent ∷ acquired 3 ∷ []

exclusion_example :
    (num_acquired 3 log ≤ 1 + num_posted 3 log)
    × (count handed 3 ≡ pos (1 + num_posted 3 log - num_acquired 3 log))
exclusion_example = exclusion reach-handed 3 (omega arith)
