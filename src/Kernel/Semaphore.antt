-- ===== src/Kernel/Semaphore.antt =====
-- kernel/sysproc.c, the semaphores: `semtable`, `seminit`, `sys_sem_wait` and `sys_sem_post`, with
-- `sleep` and `wakeup` of kernel/proc.c on the channel `&semtable[id]`. A process holds the lock of
-- the semaphore from its test of `count` to its return or to its `sleep`, so that is one step; the
-- steps of several processes interleave in any order.
pub mod Inv
pub mod Safety
mod Tests
use operating_system_lab_pro.Prelude.{
  ℕ, ◌<◌, ◌≡◌, Bool, false, ◌||◌, List, [], ◌∷◌, map, get_or, set, replicate, ◌==◌, if◌then◌else◌,
  ℤ, pos, pos_part, minus_one, ltb_ℤ, leb_ℤ, dec_ℤ, inc_ℤ,
}

abbrev pub num_sems : ℕ
num_sems = 10

-- Where a process stands: anywhere outside the two system calls, in `sleep` on semaphore `id`, or
-- made RUNNABLE there, so that it will test `count` again.
pub data Place : Type 0 where
  outside : Place
  asleep : (id : ℕ) → Place
  woken : (id : ℕ) → Place

-- `semtable`, by its counts, and the places of the processes.
pub record SemState : Type 0 where
  pub counts : List ℤ
  pub places : List Place

-- `seminit`, with `n` processes.
unfoldable pub seminit : ℕ → SemState
seminit n = record { counts = replicate num_sems (pos 1); places = replicate n outside }

abbrev pub count : SemState → ℕ → ℤ
count s id = get_or s.counts id (pos 0)

abbrev pub place : SemState → ℕ → Place
place s i = get_or s.places i outside

-- `id < 0 || id >= 10`
abbrev pub bad_id : ℤ → Bool
bad_id id = ltb_ℤ id (pos 0) || leb_ℤ (pos num_sems) id

-- What a step makes visible: a wait that returned 0, a post, or neither.
pub data Event : Type 0 where
  acquired : (id : ℕ) → Event
  posted : (id : ℕ) → Event
  silent : Event

-- Process `i`, with the lock of semaphore `id`, at the test of the loop in `sys_sem_wait`.
pub wait_turn : SemState → (i id : ℕ) → SemState × Event
wait_turn s i id =
    if leb_ℤ (count s id) (pos 0)
    then (record s { places = set s.places i (asleep id) }, silent)
    else (
      record { counts = set s.counts id (dec_ℤ (count s id)); places = set s.places i outside },
      acquired id,
    )

-- `sys_sem_wait` up to its return or its `sleep`.
pub sys_sem_wait : SemState → (i : ℕ) (id : ℤ) → SemState × Event
unfolding wait_turn
sys_sem_wait s i id = if bad_id id then (s, silent) else wait_turn s i (pos_part id)

-- The body of the loop of `wakeup(&semtable[id])`. The caller itself does not sleep.
abbrev pub wake : ℕ → Place → Place
wake id outside = outside
wake id (asleep j) = if j == id then woken j else asleep j
wake id (woken j) = woken j

pub sys_sem_post : SemState → (id : ℤ) → SemState × Event
sys_sem_post s id =
    if bad_id id
    then (s, silent)
    else let k = pos_part id in
      (
        record { counts = set s.counts k (inc_ℤ (count s k)); places = map (wake k) s.places },
        posted k,
      )

-- One step of one process.
pub data Step (s : SemState) (r : SemState × Event) : Type 0 where
  wait : (i : ℕ) (id : ℤ) → place s i ≡ outside → r ≡ sys_sem_wait s i id → Step s r
  retry : (i id : ℕ) → place s i ≡ woken id → id < num_sems → r ≡ wait_turn s i id → Step s r
  post : (i : ℕ) (id : ℤ) → place s i ≡ outside → r ≡ sys_sem_post s id → Step s r
  -- `kkill` makes a sleeping process RUNNABLE.
  kill :
      (i id : ℕ)
      → place s i ≡ asleep id
      → r ≡ (record s { places = set s.places i (woken id) }, silent)
      → Step s r

-- A run from `seminit`, with its events, the latest first.
pub data Reach (n : ℕ) : SemState → List Event → Type 0 where
  start : Reach n (seminit n) []
  next :
      {s t : SemState} {es : List Event} {e : Event}
      → Reach n s es
      → Step s (t, e)
      → Reach n t (e ∷ es)
