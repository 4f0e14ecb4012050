-- ===== src/Kernel/Log/Space.antt =====
-- The log never runs out of space, and no operation panics.
use operating_system_lab_pro.Prelude.{
  ℕ, zero, suc, ◌+◌, ◌-◌, ◌*◌, ◌<◌, ◌≤◌, ◌≡◌, ◌≢◌, inl, inr, refl, sym, ap, ◌∙◌, Bool, true, false,
  List, [], ◌∷◌, none, some, ◌==◌, if◌then◌else◌, arith, length, All, All-set, All-imp, length-set,
  length-replicate, get_elem?, lt_of_get_elem?, set, replicate, sum_by, sum_by-set, le-sum_by,
  Bool-cases,
}
use mathlib.Core.Path.{subst}
use operating_system_lab_pro.Kernel.Log.{
  Header, max_op_blocks, log_blocks, Log, begin_op, end_op, commit_done, log_write, logged,
}
use operating_system_lab_pro.Kernel.Log.Writes.{member}
use operating_system_lab_pro.Kernel.Log.Absorb.{Absorbs, log_write-Absorbs}

-- A list without its `i`-th element.
unfoldable pub remove {ℓ} : {A : Type ℓ} → ℕ → List A → List A
remove i [] = []
remove zero (x ∷ xs) = xs
remove (suc i) (x ∷ xs) = x ∷ remove i xs

-- The log after a start.
abbrev pub first_log : Log
first_log = record {
  outstanding = 0;
  committing = false;
  lh = record { n = 0; block = replicate log_blocks 0 };
}

-- The different blocks that a call has written, with one more write.
abbrev pub note : ℕ → List ℕ → List ℕ
note b own = if member b own then own else b ∷ own

-- The logs that file system calls reach, in any interleaving, with the different blocks that each call in
-- progress has written. A call writes at most `max_op_blocks` different blocks, each as often as it likes.
pub data Run : Log → List (List ℕ) → Type 0 where
  at_start : Run first_log []
  begins :
      {l l' : Log} {calls : List (List ℕ)}
      → Run l calls
      → begin_op l ≡ some l'
      → Run l' ([] ∷ calls)
  writes :
      {l l' : Log} {calls : List (List ℕ)} (i b : ℕ) (own : List ℕ)
      → Run l calls
      → get_elem? calls i ≡ some own
      → length (note b own) ≤ max_op_blocks
      → log_write l b ≡ some l'
      → Run l' (set calls i (note b own))
  ends :
      {l l' : Log} {calls : List (List ℕ)} (i : ℕ) (own : List ℕ) (commits : Bool)
      → Run l calls
      → get_elem? calls i ≡ some own
      → end_op l ≡ some (l', commits)
      → Run l' (remove i calls)
  committed :
      {l : Log} {calls : List (List ℕ)}
      → Run l calls
      → l.committing ≡ true
      → Run (commit_done l) calls

-- How many different blocks a call may still write.
room : List ℕ → ℕ
room own = max_op_blocks - length own

room_lem : (own : List ℕ) → room own ≡ max_op_blocks - length own
unfolding room
room_lem own = refl

-- All blocks of a call are in the log.
abbrev Listed : Log → List ℕ → Type 0
Listed l own = All (λ b. member b (logged l.lh) ≡ true) own

record Inv (l : Log) (calls : List (List ℕ)) : Type 0 where
  count : length calls ≡ l.outstanding
  space : l.lh.n + sum_by room calls ≤ log_blocks
  quiet : l.committing ≡ true → l.outstanding ≡ 0
  size : length l.lh.block ≡ log_blocks
  listed : All (Listed l) calls

length-remove :
    (i : ℕ) (m : List ℕ) (xs : List (List ℕ))
    → get_elem? xs i ≡ some m
    → suc (length (remove i xs)) ≡ length xs
unfolding remove
length-remove i m [] e = absurd (cc)
length-remove zero m (x ∷ xs) e = refl
length-remove (suc i) m (x ∷ xs) e = omega (arith, length-remove i m xs e)

sum_by-remove : (i : ℕ) (xs : List (List ℕ)) → sum_by room (remove i xs) ≤ sum_by room xs
unfolding remove sum_by
sum_by-remove i [] = omega arith
sum_by-remove zero (x ∷ xs) = omega arith
sum_by-remove (suc i) (x ∷ xs) = omega (arith, sum_by-remove i xs)

All-remove : (P : List ℕ → Type 0) (i : ℕ) (xs : List (List ℕ)) → All P xs → All P (remove i xs)
unfolding remove
All-remove P i [] h = tt
All-remove P zero (x ∷ xs) h = h.1
All-remove P (suc i) (x ∷ xs) h = (h.0, All-remove P i xs h.1)

All-get_elem? :
    (P : List ℕ → Type 0) (i : ℕ) (own : List ℕ) (xs : List (List ℕ))
    → All P xs
    → get_elem? xs i ≡ some own
    → P own
All-get_elem? P i own [] h e = absurd (cc)
All-get_elem? P zero own (x ∷ xs) h e = subst P (ground (arith, e)) h.0
All-get_elem? P (suc i) own (x ∷ xs) h e = All-get_elem? P i own xs h.1 e

All-member : (P : ℕ → Type 0) (b : ℕ) (own : List ℕ) → All P own → member b own ≡ true → P b
All-member P b [] h e = absurd (ground (arith, e))
All-member P b (c ∷ cs) h e = elim (Bool-cases (c == b)) [
  | inl here ↦ subst P (ground (arith, here)) h.0
  | inr away ↦ All-member P b cs h.1 (ground (arith, e, away))
]

sum_by-room : (calls : List (List ℕ)) → sum_by room calls ≤ length calls * max_op_blocks
unfolding sum_by
sum_by-room [] = omega arith
sum_by-room (own ∷ calls) = omega (arith, room_lem own, sum_by-room calls)

begin-Inv :
    (l l' : Log) (calls : List (List ℕ)) → Inv l calls → begin_op l ≡ some l' → Inv l' ([] ∷ calls)
unfolding begin_op sum_by
begin-Inv l l' calls v e =
    let after : record l { outstanding = l.outstanding + 1 } ≡ l' = ground (arith, e) in
    let whole = room_lem [] in
    subst (λ x. Inv x ([] ∷ calls)) after
      (record {
        count = omega (arith, v.count);
        space = ground (arith, e, v.count, whole, sum_by-room calls);
        quiet = λ c. ground (arith, e, c);
        size = v.size;
        listed = (tt, v.listed);
      })

module _ (l l' : Log) (calls : List (List ℕ)) (i b : ℕ) (own : List ℕ) (v : Inv l calls)
    (at : get_elem? calls i ≡ some own) (few : length (note b own) ≤ max_op_blocks)
    (e : log_write l b ≡ some l') where
  x : Absorbs l b l'
  x = log_write-Absorbs l l' b v.size e

  -- What was logged still is, and so is `b`.
  still : (c : ℕ) → member c (logged l.lh) ≡ true → member c (logged l'.lh) ≡ true
  still c h = ground (arith, x.listed c, h)

  now : member b (logged l'.lh) ≡ true
  now = ground (arith, x.listed b)

  still-Listed : (own : List ℕ) → Listed l own → Listed l' own
  still-Listed own h =
      All-imp (λ c. member c (logged l.lh) ≡ true) (λ c. member c (logged l'.lh) ≡ true) own still h

  own-Listed : Listed l' (note b own)
  own-Listed =
      let before = still-Listed own (All-get_elem? (Listed l) i own calls v.listed at) in
      elim (Bool-cases (member b own)) [ inl old ↦ rw old before | inr new ↦ rw new (now, before) ]

  -- A block that is new in the log is new for the call.
  paid : l'.lh.n + room (note b own) ≤ l.lh.n + room own
  paid = elim (Bool-cases (member b own)) [
    | inl old ↦
        let known : member b (logged l.lh) ≡ true =
          All-member (λ c. member c (logged l.lh) ≡ true) b own
            (All-get_elem? (Listed l) i own calls v.listed at) old in
        ground (arith, old, known, x.count)
    | inr new ↦ ground (arith, new, x.count, few, room_lem own, room_lem (b ∷ own))
  ]

  write-Inv : Inv l' (set calls i (note b own))
  write-Inv = record {
    count = length-set calls i (note b own) ∙ v.count ∙ sym x.outstanding;
    space = omega (arith, v.space, paid, sum_by-set room calls i own (note b own) at);
    quiet = λ c. x.outstanding ∙ v.quiet (sym x.committing ∙ c);
    size = x.size ∙ v.size;
    listed =
        All-set (Listed l') calls i (note b own)
          (All-imp (Listed l) (Listed l') calls still-Listed v.listed) own-Listed;
  }

end-Inv :
    (l l' : Log) (calls : List (List ℕ)) (i : ℕ) (own : List ℕ) (c : Bool)
    → Inv l calls
    → get_elem? calls i ≡ some own
    → end_op l ≡ some (l', c)
    → Inv l' (remove i calls)
unfolding end_op
end-Inv l l' calls i own c v at e =
    let same : l'.lh ≡ l.lh = ground (arith, e) in
    record {
      count = ground (arith, e, v.count, length-remove i own calls at);
      space = ground (arith, e, same, v.space, sum_by-remove i calls);
      quiet = λ c. ground (arith, e, c);
      size = ap (λ (h : Header). length h.block) same ∙ v.size;
      listed =
          All-imp (Listed l) (Listed l') (remove i calls)
            (λ own h.
              All-imp (λ b. member b (logged l.lh) ≡ true) (λ b. member b (logged l'.lh) ≡ true) own
                (λ b k. ap (λ h. member b (logged h)) same ∙ k) h)
            (All-remove (Listed l) i calls v.listed);
    }

no_calls : (calls : List (List ℕ)) (P : List ℕ → Type 0) → length calls ≡ 0 → All P calls
no_calls [] P e = tt
no_calls (own ∷ calls) P e = absurd (omega (arith, e))

Run-Inv : (l : Log) (calls : List (List ℕ)) → Run l calls → Inv l calls
unfolding sum_by
Run-Inv _ _ at_start = record {
  count = refl;
  space = omega arith;
  quiet = λ c. refl;
  size = length-replicate {A = ℕ} log_blocks 0;
  listed = tt;
}
Run-Inv l' _ (begins {l} {calls = calls} r e) = begin-Inv l l' calls (Run-Inv l calls r) e
Run-Inv l' _ (writes {l} {calls = calls} i b own r at few e) =
    write-Inv l l' calls i b own (Run-Inv l calls r) at few e
Run-Inv l' _ (ends {l} {calls = calls} i own c r at e) =
    end-Inv l l' calls i own c (Run-Inv l calls r) at e
Run-Inv _ calls (committed {l} r c) =
    let v = Run-Inv l calls r in
    record {
      count = v.count;
      space = omega (arith, v.space);
      quiet = λ h. absurd (cc);
      size = v.size;
      listed = no_calls calls (Listed (commit_done l)) (v.count ∙ v.quiet c);
    }

le-room :
    (calls : List (List ℕ)) (i : ℕ) (own : List ℕ)
    → get_elem? calls i ≡ some own
    → max_op_blocks - length own ≤ sum_by room calls
le-room calls i own at = omega (arith, room_lem own, le-sum_by room calls i own at)

-- When every call writes at most 10 different blocks, each as often as it likes: a call in progress that has written
-- less than 10 different blocks can write any block, again or for the first time, without a panic, and
-- it can end without one.
pub no_panic :
    (l : Log) (calls : List (List ℕ)) (i : ℕ) (own : List ℕ)
    → Run l calls
    → get_elem? calls i ≡ some own
    → (length own < max_op_blocks → (b : ℕ) → log_write l b ≢ none) × (end_op l ≢ none)
unfolding log_write end_op
no_panic l calls i own r at =
    let v = Run-Inv l calls r in
    let busy = lt_of_get_elem? calls i own at in
    (
      λ few b. ground (arith, few, v.space, v.count, busy, le-room calls i own at),
      ground (arith, v.quiet, v.count, busy),
    )
