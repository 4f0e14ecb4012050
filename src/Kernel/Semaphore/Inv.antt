-- ===== src/Kernel/Semaphore/Inv.antt =====
-- What every step keeps.
use operating_system_lab_pro.Prelude.{
  ℕ, suc, ◌+◌, ◌<◌, ◌≡◌, refl, ◌∙◌, true, false, List, [], ◌∷◌, map, arith, length, get_or, set,
  get_or-set, get_or-map, ltb, ◌&&◌, length-set, get_or-replicate, ◌==◌, if◌then◌else◌, ℤ, pos,
  pos_part, ◌≤ℤ◌, dec_ℤ, inc_ℤ, leb_ℤ, Bool-cases, inl, inr,
}
use operating_system_lab_pro.Kernel.Semaphore.{
  num_sems, Place, outside, asleep, woken, SemState, seminit, count, place, bad_id, Event, acquired,
  posted, silent, wait_turn, sys_sem_wait, wake, sys_sem_post, Step, wait, retry, post, kill, Reach,
  start, next,
}

-- How often semaphore `id` has been acquired, and posted.
pub num_acquired : ℕ → List Event → ℕ
num_acquired id [] = 0
num_acquired id (e ∷ es) =
    let n = num_acquired id es in elim e [ acquired j ↦ if j == id then suc n else n | _ ↦ n ]

pub num_posted : ℕ → List Event → ℕ
num_posted id [] = 0
num_posted id (e ∷ es) =
    let n = num_posted id es in elim e [ posted j ↦ if j == id then suc n else n | _ ↦ n ]

pub record Inv (s : SemState) (es : List Event) : Type 0 where
  pub ten : length s.counts ≡ num_sems
  pub nonneg : (id : ℕ) → pos 0 ≤ℤ count s id
  -- A process sleeps only while there is nothing to take.
  pub starved : (i id : ℕ) → place s i ≡ asleep id → count s id ≡ pos 0
  pub waits_in : (i id : ℕ) → place s i ≡ asleep id → id < num_sems
  pub balance :
      (id : ℕ) → id < num_sems → pos_part (count s id) + num_acquired id es ≡ 1 + num_posted id es

module _ {s : SemState} {es : List Event} (v : Inv s es) where
  open v use {ten, nonneg, starved, waits_in, balance}

  place-set :
      (i j : ℕ) (p : Place)
      → get_or (set s.places i p) j outside
        ≡ (if i == j && ltb i (length s.places) then p else place s j)
  place-set i j p = get_or-set s.places i j p outside

  sleep-Inv :
      (i id : ℕ)
      → id < num_sems
      → leb_ℤ (count s id) (pos 0) ≡ true
      → Inv (record s { places = set s.places i (asleep id) }) (silent ∷ es)
  unfolding num_acquired num_posted
  sleep-Inv i id lt e = record {
    ten = ten;
    nonneg = nonneg;
    starved = λ j k h. ground (arith, place-set i j (asleep id), starved j k, nonneg id);
    waits_in = λ j k h. ground (arith, place-set i j (asleep id), waits_in j k);
    balance = balance;
  }

  -- Taking one.
  take-Inv :
      (i id : ℕ)
      → id < num_sems
      → leb_ℤ (count s id) (pos 0) ≡ false
      → Inv
          (record {
            counts = set s.counts id (dec_ℤ (count s id));
            places = set s.places i outside;
          })
          (acquired id ∷ es)
  unfolding num_acquired num_posted
  take-Inv i id lt e = record {
    ten = length-set s.counts id (dec_ℤ (count s id)) ∙ ten;
    nonneg =
        λ k. ground (arith, ten, get_or-set s.counts id k (dec_ℤ (count s id)) (pos 0), nonneg k);
    starved = λ j k h. ground (
      arith,
      place-set i j outside,
      starved j k,
      get_or-set s.counts id k (dec_ℤ (count s id)) (pos 0),
    );
    waits_in = λ j k h. ground (arith, place-set i j outside, waits_in j k);
    balance = λ k l.
        ground (arith, ten, get_or-set s.counts id k (dec_ℤ (count s id)) (pos 0), balance k l);
  }

  wait_turn-Inv : (i id : ℕ) → id < num_sems → Inv (wait_turn s i id).0 ((wait_turn s i id).1 ∷ es)
  unfolding wait_turn
  wait_turn-Inv i id lt = elim (Bool-cases (leb_ℤ (count s id) (pos 0))) [
    | inl e ↦ rw e (sleep-Inv i id lt e)
    | inr e ↦ rw e (take-Inv i id lt e)
  ]

  silent-Inv : Inv s (silent ∷ es)
  unfolding num_acquired num_posted
  silent-Inv = ground arith

  wait-Inv : (i : ℕ) (id : ℤ) → Inv (sys_sem_wait s i id).0 ((sys_sem_wait s i id).1 ∷ es)
  unfolding sys_sem_wait
  wait-Inv i id = elim (Bool-cases (bad_id id)) [
    | inl e ↦ rw e silent-Inv
    | inr e ↦ rw e (wait_turn-Inv i (pos_part id) (ground arith))
  ]

  give-Inv :
      (k : ℕ)
      → k < num_sems
      → Inv
          (record { counts = set s.counts k (inc_ℤ (count s k)); places = map (wake k) s.places })
          (posted k ∷ es)
  unfolding num_acquired num_posted
  give-Inv k lt = record {
    ten = length-set s.counts k (inc_ℤ (count s k)) ∙ ten;
    nonneg = λ j.
        ground
          (arith, ten, get_or-set s.counts k j (inc_ℤ (count s k)) (pos 0), nonneg j, nonneg k);
    starved = λ i j h. ground (
      arith,
      get_or-map (wake k) s.places i outside,
      starved i j,
      get_or-set s.counts k j (inc_ℤ (count s k)) (pos 0),
    );
    waits_in = λ i j h. ground (arith, get_or-map (wake k) s.places i outside, waits_in i j);
    balance = λ j l.
        ground
          (arith, ten, get_or-set s.counts k j (inc_ℤ (count s k)) (pos 0), balance j l, nonneg k);
  }

  post-Inv : (id : ℤ) → Inv (sys_sem_post s id).0 ((sys_sem_post s id).1 ∷ es)
  unfolding sys_sem_post
  post-Inv id = elim (Bool-cases (bad_id id)) [
    | inl e ↦ rw e silent-Inv
    | inr e ↦ rw e (give-Inv (pos_part id) (ground arith))
  ]

  kill-Inv : (i id : ℕ) → Inv (record s { places = set s.places i (woken id) }) (silent ∷ es)
  unfolding num_acquired num_posted
  kill-Inv i id = record {
    ten = ten;
    nonneg = nonneg;
    starved = λ j k h. ground (arith, place-set i j (woken id), starved j k);
    waits_in = λ j k h. ground (arith, place-set i j (woken id), waits_in j k);
    balance = balance;
  }

  pub Step-Inv : (r : SemState × Event) → Step s r → Inv r.0 (r.1 ∷ es)
  Step-Inv r (wait i id h e) = rw e (wait-Inv i id)
  Step-Inv r (retry i id h lt e) = rw e (wait_turn-Inv i id lt)
  Step-Inv r (post i id h e) = rw e (post-Inv id)
  Step-Inv r (kill i id h e) = rw e (kill-Inv i id)

pub seminit-Inv : (n : ℕ) → Inv (seminit n) []
unfolding seminit num_acquired num_posted
seminit-Inv n = record {
  ten = refl;
  nonneg = λ id. ground (arith, get_or-replicate num_sems id (pos 1) (pos 0));
  starved = λ i id h. ground (arith, get_or-replicate n i outside outside);
  waits_in = λ i id h. ground (arith, get_or-replicate n i outside outside);
  balance = λ id lt. ground (arith, get_or-replicate num_sems id (pos 1) (pos 0));
}

pub Reach-Inv : {n : ℕ} {s : SemState} {es : List Event} → Reach n s es → Inv s es
Reach-Inv {n} start = seminit-Inv n
Reach-Inv (next r st) = Step-Inv (Reach-Inv r) _ st
