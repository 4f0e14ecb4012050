-- ===== src/Kernel/Fork/Tests.antt =====
-- Runs of fork and clone, and the theorems about them at concrete inputs.
use operating_system_lab_pro.Prelude.{
  ℕ, zero, suc, ◌≡◌, refl, arith, false, true, List, [], ◌∷◌, Option, none, some, ℤ, pos, map,
  get_elem?,
}
use operating_system_lab_pro.Kernel.Proc.{ProcState, Proc, TrapFrame, unused, running, runnable}
use operating_system_lab_pro.Kernel.FlatMemory.{flat}
use operating_system_lab_pro.Kernel.Fork.{Table, is_unused, kfork, kclone, get_psinfo}
use operating_system_lab_pro.Kernel.Fork.Child.{
  IsForked, IsCloned, Spawned, kfork-Spawned, kclone-Spawned,
}
use operating_system_lab_pro.Kernel.Fork.Pids.{IsTable}
use operating_system_lab_pro.Kernel.Fork.Reach.{boots, then_step, forks, Reach-IsTable}

abbrev frame : TrapFrame
frame = record { epc = 100; sp = 0; a0 = 9; rest = [] }

abbrev entry : (pid : ℕ) → ProcState → Proc
entry pid state = record {
  state = state;
  chan = 0;
  killed = false;
  xstate = pos 0;
  pid = pos pid;
  parent = none;
  sz = 4096;
  trapframe = frame;
  name = [];
  pending_signals = λ j. false;
  signal_handlers = [];
  sig_tf = frame;
  is_handling_signal = false;
  is_thread = false;
  mem_parent = none;
}

abbrev caller : Proc
caller = entry 1 running

abbrev table : Table
table = record { procs = caller ∷ entry 0 unused ∷ []; nextpid = 2 }

abbrev summary : Table → List (ProcState × ℤ × Option ℕ)
summary t = map (λ (p : Proc). (p.state, p.pid, p.parent)) t.procs

forks_once :
    summary (kfork true true 0 caller table).1
    ≡ (running, pos 1, none) ∷ (runnable, pos 2, some 0) ∷ []
unfolding kfork
forks_once = refl

-- The table is full then.
forks_no_more :
    (kfork true true 0 caller (kfork true true 0 caller table).1).1
    ≡ (kfork true true 0 caller table).1
unfolding kfork
forks_no_more = refl

psinfo : (get_psinfo flat (λ u. 5 ∷ []) 1 0 (0 ∷ 0 ∷ []) table.procs) ≡ (5 ∷ 0 ∷ [], pos 1)
unfolding get_psinfo
psinfo = refl

kfork-Spawned_example : Spawned (IsForked 0 caller) true table (kfork true true 0 caller table)
kfork-Spawned_example = kfork-Spawned true true 0 caller table

kclone-Spawned_example :
    Spawned (IsCloned 64 8192 5 0 caller) true table (kclone 64 8192 5 true true 0 caller table)
kclone-Spawned_example = kclone-Spawned 64 8192 5 true true 0 caller table

abbrev empty : Table
empty = record { procs = entry 0 unused ∷ entry 0 unused ∷ []; nextpid = 1 }

none_used : (j : ℕ) (q : Proc) → get_elem? empty.procs j ≡ some q → is_unused q.state ≡ true
none_used zero q at = ground (arith, at)
none_used (suc zero) q at = ground (arith, at)
none_used (suc (suc j)) q at = absurd (ground (arith, at))

Reach-IsTable_example : IsTable (kfork true true 0 caller empty).1
Reach-IsTable_example =
    Reach-IsTable flat (λ x. 0 ∷ []) (kfork true true 0 caller empty).1
      (then_step empty (kfork true true 0 caller empty).1 (boots empty.procs none_used)
        (forks true true 0 caller))
