-- ===== src/Kernel/Family.antt =====
-- kernel/proc.c, parents and children: `wakeup`, `reparent`, `kexit`, `freeproc`, and one round of the
-- loops of `kwait` and `kjoin`, which hold `wait_lock` from the scan to the return or to `sleep`.
pub mod Scan
pub mod Exit
mod Tests
use operating_system_lab_pro.Prelude.{
  ℕ, zero, suc, ◌+◌, ◌≡◌, Bool, true, false, not, ◌&&◌, ◌||◌, List, [], ◌∷◌, Option, none, some,
  length, get_elem?, set, ◌==◌, if◌then◌else◌, ℤ, pos, minus_one, eq_ℤ,
}
use operating_system_lab_pro.Kernel.Proc.{
  ProcState, unused, used, sleeping, runnable, running, zombie, Proc, is_sleeping,
}
use operating_system_lab_pro.Kernel.UserMemory.{UserMemory}

-- `&proc[i]` as a channel; 0 is the null pointer.
abbrev pub chan_of : ℕ → ℕ
chan_of i = i + 1

abbrev pub parent_chan : Option ℕ → ℕ
parent_chan none = 0
parent_chan (some i) = chan_of i

-- The body of the loop of `wakeup`, for process `j`.
abbrev pub woken : (me chan j : ℕ) → Proc → Proc
woken me chan j p =
    if not (j == me) && is_sleeping p.state && p.chan == chan
    then record p { state = runnable }
    else p

-- The loop of `wakeup` from process `j` on, which `me` runs.
unfoldable pub wakeup_from : (me chan j : ℕ) → List Proc → List Proc
wakeup_from me chan j [] = []
wakeup_from me chan j (p ∷ ps) = woken me chan j p ∷ wakeup_from me chan (j + 1) ps

unfoldable pub wakeup : (me chan : ℕ) → List Proc → List Proc
unfolding wakeup_from
wakeup me chan ps = wakeup_from me chan 0 ps

abbrev pub is_child : (me : ℕ) → Proc → Bool
is_child me p = elim p.parent [ none ↦ false | some i ↦ i == me ]

-- The body of the loop of `reparent`, for process `j`.
unfoldable pub reparent_one : (me init j : ℕ) → List Proc → List Proc
unfolding wakeup
reparent_one me init j ps = elim (get_elem? ps j) [
  | none ↦ ps
  | some p ↦
      if is_child me p
      then wakeup me (chan_of init) (set ps j (record p { parent = some init }))
      else ps
]

-- The loop of `reparent`, `n` processes from `j` on.
unfoldable pub reparent_from : (me init n j : ℕ) → List Proc → List Proc
unfolding reparent_one
reparent_from me init zero j ps = ps
reparent_from me init (suc n) j ps = reparent_from me init n (j + 1) (reparent_one me init j ps)

unfoldable pub reparent : (me init : ℕ) → List Proc → List Proc
unfolding reparent_from
reparent me init ps = reparent_from me init (length ps) 0 ps

-- The end of `kexit`, when the process has its status and waits to be freed.
abbrev pub ended : ℤ → Proc → Proc
ended status p = record p { xstate = status; state = zombie }

abbrev pub end_at : (me : ℕ) → ℤ → List Proc → List Proc
end_at me status ps = elim (get_elem? ps me) [ none ↦ ps | some p ↦ set ps me (ended status p) ]

-- The parent of a process of the table.
abbrev pub parent_at : List Proc → ℕ → Option ℕ
parent_at ps i = elim (get_elem? ps i) [ none ↦ none | some p ↦ p.parent ]

-- `kexit` from `acquire(&wait_lock)` on, after the files are closed; `none` is the panic of the first
-- process, before that.
unfoldable pub kexit : (me init : ℕ) → (status : ℤ) → List Proc → Option (List Proc)
unfolding reparent wakeup
kexit me init status ps =
    if me == init
    then none
    else let ps' = reparent me init ps in
      some (end_at me status (wakeup me (parent_chan (parent_at ps' me)) ps'))

-- `freeproc`, without the pages that it frees: page table and trap frames.
abbrev pub freeproc : Proc → Proc
freeproc p = record p {
  sz = 0;
  pid = pos 0;
  parent = none;
  name = [];
  chan = 0;
  killed = false;
  xstate = pos 0;
  is_thread = false;
  mem_parent = none;
  state = unused;
}

abbrev pub is_zombie : ProcState → Bool
is_zombie zombie = true
is_zombie _ = false

-- The scan of `kwait` and of `kjoin` from process `j` on, for the children that `wanted` admits: the
-- first zombie, if there is one, and `havekids`.
unfoldable pub scan :
    (wanted : Proc → Bool) → (me j : ℕ) → (havekids : Bool) → List Proc → Option (ℕ × Proc) × Bool
scan wanted me j havekids [] = (none, havekids)
scan wanted me j havekids (p ∷ ps) =
    let mine = is_child me p && wanted p in
    let rest = scan wanted me (j + 1) (if mine then true else havekids) ps in
    if mine && is_zombie p.state then (some (j, p), true) else rest

-- What a round of the loop ends with: a return value, or the sleep on the caller's own channel.
pub data Round (M : Type 0) : Type 0 where
  returned : M → List Proc → ℤ → Round M
  sleeps : List Proc → Round M

abbrev pub asleep : (me : ℕ) → Proc → Proc
asleep me p = record p { chan = chan_of me; state = sleeping }

module _ (um : UserMemory) (status_bytes : ℤ → List ℕ) where
  open um use {Mem, copyout}

  -- A round of `me`, which is `p`; `status_bytes` are the bytes of an `int`.
  unfoldable pub round :
      (wanted : Proc → Bool) → Mem → (me : ℕ) → Proc → (addr : ℕ) → List Proc → Round Mem
  unfolding scan
  round wanted m me p addr ps =
      let (found, havekids) = scan wanted me 0 false ps in
      elim found [
        | some (j, child) ↦
            if addr == 0
            then returned m (set ps j (freeproc child)) child.pid
            else let (m', ok) = copyout m addr (status_bytes child.xstate) in
              if ok
              then returned m' (set ps j (freeproc child)) child.pid
              else returned m' ps minus_one
        | none ↦
            if not havekids || p.killed
            then returned m ps minus_one
            else sleeps (set ps me (asleep me p))
      ]

  unfoldable pub kwait : Mem → (me : ℕ) → Proc → (addr : ℕ) → List Proc → Round Mem
  unfolding round
  kwait = round (λ p. true)

  unfoldable pub kjoin : (tid : ℤ) → Mem → (me : ℕ) → Proc → (addr : ℕ) → List Proc → Round Mem
  unfolding round
  kjoin tid = round (λ p. eq_ℤ p.pid tid)
