-- ===== src/Kernel/Fork.antt =====
-- kernel/proc.c: `allocproc`, `kfork` and `kclone` on the process table, and `get_psinfo`. A fork is one
-- step. Pages, open files and kernel stacks are left out: whether their allocation and the copy of the
-- user's memory succeed is an argument, and the contents of new pages are not in the model.
pub mod Pids
pub mod Child
pub mod Keep
pub mod Reach
mod Tests
use operating_system_lab_pro.Prelude.{
  ℕ, zero, suc, ◌+◌, ◌*◌, Bool, true, false, List, [], ◌∷◌, Option, none, some, replicate,
  get_elem?, set, if◌then◌else◌, ℤ, pos, minus_one,
}
use operating_system_lab_pro.Kernel.Proc.{ProcState, unused, used, runnable, TrapFrame, Proc}
use operating_system_lab_pro.Kernel.Family.{freeproc}
use operating_system_lab_pro.Kernel.Signal.{nsig, sig_dfl}
use operating_system_lab_pro.Kernel.UserMemory.{UserMemory}

-- `proc` and `nextpid`.
pub record Table : Type 0 where
  pub procs : List Proc
  pub nextpid : ℕ

abbrev pub is_unused : ProcState → Bool
is_unused unused = true
is_unused _ = false

-- The scan of `allocproc` from process `i` on.
unfoldable pub first_unused : (i : ℕ) → List Proc → Option (ℕ × Proc)
first_unused i [] = none
first_unused i (p ∷ ps) =
    let rest = first_unused (i + 1) ps in if is_unused p.state then some (i, p) else rest

abbrev pub claimed : (pid : ℕ) → Proc → Proc
claimed pid p = record p { pid = pos pid; state = used }

abbrev pub set_up : Proc → Proc
set_up p = record p {
  signal_handlers = replicate nsig sig_dfl;
  pending_signals = λ i. false;
  is_handling_signal = false;
  is_thread = false;
  mem_parent = none;
}

-- `allocproc`: the process that it found, as it is then; `pages` says whether its three allocations all
-- succeed.
unfoldable pub allocproc : (pages : Bool) → Table → Option (ℕ × Proc) × Table
unfolding first_unused
allocproc pages t = elim (first_unused 0 t.procs) [
  | none ↦ (none, t)
  | some (j, p) ↦
      let np = claimed t.nextpid p in
      if pages
      then (
        some (j, set_up np),
        record { procs = set t.procs j (set_up np); nextpid = t.nextpid + 1 },
      )
      else (none, record { procs = set t.procs j (freeproc np); nextpid = t.nextpid + 1 })
]

-- What `kfork` makes of the new process `np`; `p` is the caller, process `me`.
abbrev pub forked : (me : ℕ) → (p np : Proc) → Proc
forked me p np = record np {
  sz = p.sz;
  trapframe = record p.trapframe { a0 = 0 };
  name = p.name;
  parent = some me;
  state = runnable;
}

abbrev pub page_size : ℕ
page_size = 4096

-- The same for `kclone`.
abbrev pub cloned : (fcn stack arg : ℕ) → (me : ℕ) → (p np : Proc) → Proc
cloned fcn stack arg me p np = record np {
  sz = p.sz;
  trapframe = record p.trapframe { epc = fcn; sp = stack + page_size; a0 = arg };
  is_thread = true;
  mem_parent = some me;
  name = p.name;
  parent = some me;
  state = runnable;
}

-- What the two have in common; `copied` says whether the user's memory was copied or shared.
unfoldable pub spawn :
    (child : (me : ℕ) → (p np : Proc) → Proc) (pages copied : Bool) (me : ℕ) (p : Proc)
    → Table
    → ℤ × Table
unfolding allocproc
spawn child pages copied me p t =
    let (found, t') = allocproc pages t in
    elim found [
      | none ↦ (minus_one, t')
      | some (j, np) ↦
          if copied
          then (np.pid, record t' { procs = set t'.procs j (child me p np) })
          else (minus_one, record t' { procs = set t'.procs j (freeproc np) })
    ]

unfoldable pub kfork : (pages copied : Bool) (me : ℕ) (p : Proc) → Table → ℤ × Table
unfolding spawn
kfork = spawn forked

unfoldable pub kclone :
    (fcn stack arg : ℕ) (pages copied : Bool) (me : ℕ) (p : Proc) → Table → ℤ × Table
unfolding spawn
kclone fcn stack arg = spawn (cloned fcn stack arg)

-- `struct uproc`
pub record Uproc : Type 0 where
  pub pid : ℤ
  pub ppid : ℤ
  pub state : ProcState
  pub name : List ℕ

-- `p->parent ? p->parent->pid : 0`
abbrev pub parent_pid : List Proc → Proc → ℤ
parent_pid ps p = elim p.parent [
  | none ↦ pos 0
  | some i ↦ elim (get_elem? ps i) [ none ↦ pos 0 | some q ↦ q.pid ]
]

abbrev pub info : List Proc → Proc → Uproc
info ps p = record { pid = p.pid; ppid = parent_pid ps p; state = p.state; name = p.name }

module _ (um : UserMemory) (bytes : Uproc → List ℕ) (size : ℕ) where
  open um use {Mem, copyout}

  -- The loop of `get_psinfo`; `bytes` are the bytes of a `struct uproc`, and `size` is their number.
  unfoldable pub psinfo_from : (table : List Proc) (addr count : ℕ) → Mem → List Proc → Mem × ℤ
  psinfo_from table addr count m [] = (m, pos count)
  psinfo_from table addr count m (p ∷ ps) =
      let (m', ok) = copyout m (addr + count * size) (bytes (info table p)) in
      let next = psinfo_from table addr (count + 1) m' ps in
      let skipped = psinfo_from table addr count m ps in
      if is_unused p.state then skipped else if ok then next else (m', minus_one)

  unfoldable pub get_psinfo : (addr : ℕ) → Mem → List Proc → Mem × ℤ
  unfolding psinfo_from
  get_psinfo addr m ps = psinfo_from ps addr 0 m ps
