-- ===== src/Kernel/Fork/Child.antt =====
-- What `kfork` and `kclone` do, in every case.
use operating_system_lab_pro.Prelude.{
  ℕ, zero, suc, ◌+◌, ◌<◌, ◌≡◌, refl, ap, ◌∙◌, Bool, true, false, ◌&&◌, List, [], ◌∷◌, Option, none,
  some, arith, get_elem?, get_or, get_or-replicate, replicate, set, set-set, ℤ, pos, minus_one,
  Bool-cases, inl, inr,
}
use mathlib.Core.Path.{subst}
use operating_system_lab_pro.Kernel.Proc.{Proc, runnable}
use operating_system_lab_pro.Kernel.Signal.{nsig, sig_dfl}
use operating_system_lab_pro.Kernel.Family.{freeproc}
use operating_system_lab_pro.Kernel.Fork.{
  Table, is_unused, first_unused, claimed, set_up, allocproc, spawn, forked, cloned, kfork, kclone,
}

-- Process `i` of the table is the first that is not in use.
pub record IsFirstUnused (ps : List Proc) (i : ℕ) (p : Proc) : Type 0 where
  pub at : get_elem? ps i ≡ some p
  pub free : is_unused p.state ≡ true
  pub first : (k : ℕ) (q : Proc) → k < i → get_elem? ps k ≡ some q → is_unused q.state ≡ false

abbrev pub NoneUnused : List Proc → Type 0
NoneUnused ps = (k : ℕ) (q : Proc) → get_elem? ps k ≡ some q → is_unused q.state ≡ false

data Search (i : ℕ) (ps : List Proc) (r : Option (ℕ × Proc)) : Type 0 where
  hit : (d : ℕ) (p : Proc) → r ≡ some (i + d, p) → IsFirstUnused ps d p → Search i ps r
  miss : r ≡ none → NoneUnused ps → Search i ps r

search_past :
    (i : ℕ) (p : Proc) (ps : List Proc) (r : Option (ℕ × Proc))
    → is_unused p.state ≡ false
    → Search (i + 1) ps r
    → Search i (p ∷ ps) r
search_past i p ps r used! (hit d q e f) =
    hit (suc d) q (e ∙ ap (λ k. some (k, q)) (omega arith))
      (record { at = f.at; free = f.free; first = earlier })
  where
    earlier :
        (k : ℕ) (o : Proc) → k < suc d → get_elem? (p ∷ ps) k ≡ some o → is_unused o.state ≡ false
    earlier zero o lt at = ground (arith, used!)
    earlier (suc k) o lt at = f.first k o (omega arith) at
search_past i p ps r used! (miss e none_free) = miss e every
  where
    every : NoneUnused (p ∷ ps)
    every zero o at = ground (arith, used!)
    every (suc k) o at = none_free k o at

search : (i : ℕ) (ps : List Proc) → Search i ps (first_unused i ps)
unfolding first_unused
search i [] = miss refl (λ k q at. absurd (ground (arith, at)))
search i (p ∷ ps) = elim (Bool-cases (is_unused p.state)) [
  | inl free ↦
      hit 0 p (ground (arith, free))
        (record { at = refl; free = free; first = λ k q lt at. absurd (omega arith) })
  | inr used! ↦
      subst (Search i (p ∷ ps)) (ground (arith, used!))
        (search_past i p ps (first_unused (i + 1) ps) used! (search (i + 1) ps))
]

-- What a fork returns and leaves; `IsChild` says what the new process is, given its process ID.
pub data Spawned (IsChild : ℕ → Proc → Type 0) (ready : Bool) (t : Table) (r : ℤ × Table)
    : Type 0 where
  -- The table is full, and stays as it is.
  full : NoneUnused t.procs → r ≡ (minus_one, t) → Spawned IsChild ready t r
  -- A page is missing: an unused process has been freed again, and a process ID is lost.
  failed :
      (j : ℕ) (p q : Proc)
      → ready ≡ false
      → IsFirstUnused t.procs j p
      → is_unused q.state ≡ true
      → r ≡ (minus_one, record { procs = set t.procs j q; nextpid = t.nextpid + 1 })
      → Spawned IsChild ready t r
  -- The first unused process is now the child, with the next process ID; no other changes.
  made :
      (j : ℕ) (p q : Proc)
      → ready ≡ true
      → IsFirstUnused t.procs j p
      → IsChild t.nextpid q
      → r ≡ (pos t.nextpid, record { procs = set t.procs j q; nextpid = t.nextpid + 1 })
      → Spawned IsChild ready t r

module _ (child : (me : ℕ) → (p np : Proc) → Proc) (me : ℕ) (p : Proc) (t : Table) where
  spawn_full :
      (pages copied : Bool)
      → first_unused 0 t.procs ≡ none
      → spawn child pages copied me p t ≡ (minus_one, t)
  unfolding spawn allocproc
  spawn_full pages copied e = ground (arith, e)

  module _ (j : ℕ) (q : Proc) (e : first_unused 0 t.procs ≡ some (j, q)) where
    abbrev np : Proc
    np = claimed t.nextpid q

    no_pages :
        (copied : Bool)
        → spawn child false copied me p t
          ≡ (minus_one, record { procs = set t.procs j (freeproc np); nextpid = t.nextpid + 1 })
    unfolding spawn allocproc
    no_pages copied = ground (arith, e)

    no_copy : spawn child true false me p t ≡ (
      minus_one,
      record { procs = set t.procs j (freeproc (set_up np)); nextpid = t.nextpid + 1 },
    )
    unfolding spawn allocproc
    no_copy = ground (arith, e, set-set t.procs j (set_up np) (freeproc (set_up np)))

    spawn_made : spawn child true true me p t ≡ (
      pos t.nextpid,
      record { procs = set t.procs j (child me p (set_up np)); nextpid = t.nextpid + 1 },
    )
    unfolding spawn allocproc
    spawn_made = ground (arith, e, set-set t.procs j (set_up np) (child me p (set_up np)))

    spawn_found :
        (IsChild : ℕ → Proc → Type 0) (pages copied : Bool)
        → IsChild t.nextpid (child me p (set_up np))
        → IsFirstUnused t.procs j q
        → Spawned IsChild (pages && copied) t (spawn child pages copied me p t)
    spawn_found IsChild false copied c f = failed j q (freeproc np) refl f refl (no_pages copied)
    spawn_found IsChild true false c f = failed j q (freeproc (set_up np)) refl f refl no_copy
    spawn_found IsChild true true c f = made j q (child me p (set_up np)) refl f c spawn_made

  spawn-Spawned :
      (IsChild : ℕ → Proc → Type 0) (pages copied : Bool)
      → ((q : Proc) → IsChild t.nextpid (child me p (set_up (claimed t.nextpid q))))
      → Spawned IsChild (pages && copied) t (spawn child pages copied me p t)
  spawn-Spawned IsChild pages copied c = go (search 0 t.procs)
    where
      go :
          Search 0 t.procs (first_unused 0 t.procs)
          → Spawned IsChild (pages && copied) t (spawn child pages copied me p t)
      go (hit d q e f) =
          spawn_found d q (e ∙ ap (λ k. some (k, q)) (omega arith)) IsChild pages copied (c q) f
      go (miss e none_free) = full none_free (spawn_full pages copied e)

-- What every new process `q` of the caller `p`, process `me`, has.
pub record IsNew (me : ℕ) (p : Proc) (pid : ℕ) (q : Proc) : Type 0 where
  pub is_runnable : q.state ≡ runnable
  pub same_pid : q.pid ≡ pos pid
  pub same_parent : q.parent ≡ some me
  pub same_size : q.sz ≡ p.sz
  pub same_name : q.name ≡ p.name
  pub same_rest : q.trapframe.rest ≡ p.trapframe.rest
  pub none_pending : (i : ℕ) → q.pending_signals i ≡ false
  pub default_action : (i : ℕ) → get_or q.signal_handlers i sig_dfl ≡ sig_dfl
  pub not_handling : q.is_handling_signal ≡ false

pub record IsForked (me : ℕ) (p : Proc) (pid : ℕ) (q : Proc) : Type 0 where
  pub is_new : IsNew me p pid q
  pub zero_result : q.trapframe.a0 ≡ 0
  pub same_epc : q.trapframe.epc ≡ p.trapframe.epc
  pub same_sp : q.trapframe.sp ≡ p.trapframe.sp
  pub no_thread : (q.is_thread ≡ false) × (q.mem_parent ≡ none)

pub record IsCloned (fcn stack arg me : ℕ) (p : Proc) (pid : ℕ) (q : Proc) : Type 0 where
  pub is_new : IsNew me p pid q
  pub argument : q.trapframe.a0 ≡ arg
  pub starts : q.trapframe.epc ≡ fcn
  pub stacked : q.trapframe.sp ≡ stack + 4096
  pub is_thread : (q.is_thread ≡ true) × (q.mem_parent ≡ some me)

default_lem : (i : ℕ) → get_or (replicate nsig sig_dfl) i sig_dfl ≡ sig_dfl
default_lem i = ground (arith, get_or-replicate nsig i sig_dfl sig_dfl)

forked-IsForked :
    (me : ℕ) (p : Proc) (pid : ℕ) (q : Proc)
    → IsForked me p pid (forked me p (set_up (claimed pid q)))
forked-IsForked me p pid q = record {
  is_new = record {
    is_runnable = refl;
    same_pid = refl;
    same_parent = refl;
    same_size = refl;
    same_name = refl;
    same_rest = refl;
    none_pending = λ i. refl;
    default_action = default_lem;
    not_handling = refl;
  };
  zero_result = refl;
  same_epc = refl;
  same_sp = refl;
  no_thread = (refl, refl);
}

cloned-IsCloned :
    (fcn stack arg me : ℕ) (p : Proc) (pid : ℕ) (q : Proc)
    → IsCloned fcn stack arg me p pid (cloned fcn stack arg me p (set_up (claimed pid q)))
cloned-IsCloned fcn stack arg me p pid q = record {
  is_new = record {
    is_runnable = refl;
    same_pid = refl;
    same_parent = refl;
    same_size = refl;
    same_name = refl;
    same_rest = refl;
    none_pending = λ i. refl;
    default_action = default_lem;
    not_handling = refl;
  };
  argument = refl;
  starts = refl;
  stacked = refl;
  is_thread = (refl, refl);
}

-- For every table of processes: if none is unused, `kfork` returns -1 and changes nothing. Otherwise it
-- takes the first that is. If a page is missing it returns -1 and that process is unused again, with the
-- next process ID lost; if none is, it returns the next process ID and that process is the child: runnable, its
-- parent the caller, its registers the caller's but for a 0 in a0, without pending signals, and with the
-- default action for every signal, whatever the caller's. No other process changes.
pub kfork-Spawned :
    (pages copied : Bool) (me : ℕ) (p : Proc) (t : Table)
    → Spawned (IsForked me p) (pages && copied) t (kfork pages copied me p t)
unfolding kfork
kfork-Spawned pages copied me p t =
    spawn-Spawned forked me p t (IsForked me p) pages copied (forked-IsForked me p t.nextpid)

-- The same as for `kfork` holds for `kclone` - a full table, a missing page, the next process ID, and no other process
-- changed -, but its child is a thread of the caller: it starts at `fcn`, with its stack pointer
-- a page above `stack` and `arg` in a0.
pub kclone-Spawned :
    (fcn stack arg : ℕ) (pages copied : Bool) (me : ℕ) (p : Proc) (t : Table)
    → Spawned
        (IsCloned fcn stack arg me p)
        (pages && copied)
        t
        (kclone fcn stack arg pages copied me p t)
unfolding kclone
kclone-Spawned fcn stack arg pages copied me p t =
    spawn-Spawned (cloned fcn stack arg) me p t (IsCloned fcn stack arg me p) pages copied
      (cloned-IsCloned fcn stack arg me p t.nextpid)
