-- ===== src/Kernel/Fork/Reach.antt =====
-- All tables that forks, clones, exits, waits and wakeups lead to.
use operating_system_lab_pro.Prelude.{
  ℕ, ◌+◌, ◌≡◌, refl, sym, Bool, true, ◌&&◌, List, some, arith, get_elem?, set, ℤ, pos,
}
use mathlib.Core.Path.{subst}
use operating_system_lab_pro.Kernel.Proc.{Proc}
use operating_system_lab_pro.Kernel.UserMemory.{UserMemory}
use operating_system_lab_pro.Kernel.Family.{
  wakeup, kexit, freeproc, Round, returned, sleeps, asleep, round,
}
use operating_system_lab_pro.Kernel.Family.Scan.{
  Ends, reaped, bad_address, gives_up, waits, round-Ends,
}
use operating_system_lab_pro.Kernel.Fork.{Table, is_unused, kfork, kclone}
use operating_system_lab_pro.Kernel.Fork.Pids.{
  Live, IsTable, Kept, Kept-refl, Kept-set, Kept-IsTable, fresh-IsTable,
}
use operating_system_lab_pro.Kernel.Fork.Keep.{InUse, wakeup-Kept, kexit-Kept}
use operating_system_lab_pro.Kernel.Fork.Child.{
  IsForked, IsCloned, Spawned, full, failed, made, kfork-Spawned, kclone-Spawned,
}

module _ (um : UserMemory) (status_bytes : ℤ → List ℕ) where
  open um use {Mem}

  -- The table after a round.
  abbrev pub left : Round Mem → List Proc
  left (returned m ps r) = ps
  left (sleeps ps) = ps

  module _ (wanted : Proc → Bool) (m : Mem) (me : ℕ) (p : Proc) (addr : ℕ) (ps : List Proc) where
    Ends-Kept :
        (r : Round Mem)
        → get_elem? ps me ≡ some p
        → Live p
        → Ends um status_bytes wanted m me p addr ps r
        → Kept ps (left r)
    Ends-Kept r at live (reaped j child m' f s e) =
        subst (λ r. Kept ps (left r)) (sym e)
          (Kept-set ps j child (freeproc child) f.at (λ l. absurd (ground (arith, l))))
    Ends-Kept r at live (bad_address j child m' f a c e) =
        subst (λ r. Kept ps (left r)) (sym e) (Kept-refl ps)
    Ends-Kept r at live (gives_up n o e) = subst (λ r. Kept ps (left r)) (sym e) (Kept-refl ps)
    Ends-Kept r at live (waits n o k e) =
        subst (λ r. Kept ps (left r)) (sym e)
          (Kept-set ps me p (asleep me p) at (λ l. (live, refl)))

  -- A step of a process; a fork of any process stands for the first process too.
  pub data Step (t : Table) : Table → Type 0 where
    forks : (pages copied : Bool) (me : ℕ) (p : Proc) → Step t (kfork pages copied me p t).1
    clones :
        (fcn stack arg : ℕ) (pages copied : Bool) (me : ℕ) (p : Proc)
        → Step t (kclone fcn stack arg pages copied me p t).1
    exits :
        (me init : ℕ) (status : ℤ) (qs : List Proc)
        → InUse me t.procs
        → kexit me init status t.procs ≡ some qs
        → Step t (record t { procs = qs })
    -- A round of `kwait` or of `kjoin`.
    looks :
        (wanted : Proc → Bool) (m : Mem) (me : ℕ) (p : Proc) (addr : ℕ)
        → get_elem? t.procs me ≡ some p
        → Live p
        → Step t (record t { procs = left (round um status_bytes wanted m me p addr t.procs) })
    wakes : (me chan : ℕ) → Step t (record t { procs = wakeup me chan t.procs })

  pub data Reach : Table → Type 0 where
    boots :
        (ps : List Proc)
        → ((j : ℕ) (q : Proc) → get_elem? ps j ≡ some q → is_unused q.state ≡ true)
        → Reach (record { procs = ps; nextpid = 1 })
    then_step : (t t' : Table) → Reach t → Step t t' → Reach t'

  Spawned-IsTable :
      (IsChild : ℕ → Proc → Type 0) (ready : Bool) (t : Table) (r : ℤ × Table)
      → ((pid : ℕ) (q : Proc) → IsChild pid q → q.pid ≡ pos pid)
      → IsTable t
      → Spawned IsChild ready t r
      → IsTable r.1
  Spawned-IsTable IsChild ready t r pid_lem v (full n e) = subst (λ r. IsTable r.1) (sym e) v
  Spawned-IsTable IsChild ready t r pid_lem v (failed j p q b f free e) =
      subst (λ r. IsTable r.1) (sym e)
        (Kept-IsTable t v (set t.procs j q) (t.nextpid + 1) (omega arith)
          (Kept-set t.procs j p q f.at (λ l. absurd (ground (arith, l, free)))))
  Spawned-IsTable IsChild ready t r pid_lem v (made j p q b f c e) =
      subst (λ r. IsTable r.1) (sym e) (fresh-IsTable t v j p q f.at (pid_lem t.nextpid q c))

  Step-IsTable : {t t' : Table} → Step t t' → IsTable t → IsTable t'
  Step-IsTable {t} (forks pages copied me p) v =
      Spawned-IsTable (IsForked me p) (pages && copied) t (kfork pages copied me p t)
        (λ pid q c. c.is_new.same_pid) v (kfork-Spawned pages copied me p t)
  Step-IsTable {t} (clones fcn stack arg pages copied me p) v =
      Spawned-IsTable (IsCloned fcn stack arg me p) (pages && copied) t
        (kclone fcn stack arg pages copied me p t) (λ pid q c. c.is_new.same_pid) v
        (kclone-Spawned fcn stack arg pages copied me p t)
  Step-IsTable {t} (exits me init status qs live e) v =
      Kept-IsTable t v qs t.nextpid (omega arith) (kexit-Kept me init status t.procs qs live e)
  Step-IsTable {t} (looks wanted m me p addr at live) v =
      let r = round um status_bytes wanted m me p addr t.procs in
      Kept-IsTable t v (left r) t.nextpid (omega arith) (
        Ends-Kept wanted m me p addr t.procs r at live
          (round-Ends um status_bytes wanted m me p addr t.procs))
  Step-IsTable {t} (wakes me chan) v =
      Kept-IsTable t v (wakeup me chan t.procs) t.nextpid (omega arith)
        (wakeup-Kept me chan t.procs)

  -- However processes fork, clone, exit, wait, join and wake one another, from a table where none is in
  -- use: the processes in use have process IDs from 1 on below `nextpid`, no two the same.
  pub Reach-IsTable : (t : Table) → Reach t → IsTable t
  Reach-IsTable t (boots ps free) = record {
    unique = λ i j p q ati atj lp lq e. absurd (ground (arith, free i p ati, lp));
    positive = λ i p at l. absurd (ground (arith, free i p at, l));
    small = λ i p at l. absurd (ground (arith, free i p at, l));
    next = omega arith;
  }
  Reach-IsTable t (then_step t' _ r s) = Step-IsTable s (Reach-IsTable t' r)
