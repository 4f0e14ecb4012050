-- ===== src/Kernel/Proc.antt =====
-- kernel/proc.c and kernel/proc.h: the process table, with the fields that signals, sleeping, fork,
-- exit and `psinfo` use. `proc[NPROC]` is a list and a `struct proc *` an index into it (`none` is null).
-- A function that takes each `p->lock` in turn is one step.
use operating_system_lab_pro.Prelude.{ℕ, Bool, true, false, List, Option, ℤ, Word}

-- `enum procstate`
pub data ProcState : Type 0 where
  unused used sleeping runnable running zombie : ProcState

-- The saved user registers: those that signals and `clone` set, and all others in `rest`.
pub record TrapFrame : Type 0 where
  pub epc : ℕ
  pub sp : ℕ
  pub a0 : ℕ
  pub rest : List ℕ

pub record Proc : Type 0 where
  pub state : ProcState
  pub chan : ℕ
  pub killed : Bool
  pub xstate : ℤ
  pub pid : ℤ
  pub parent : Option ℕ
  pub sz : ℕ
  pub trapframe : TrapFrame
  pub name : List ℕ
  pub pending_signals : Word
  pub signal_handlers : List ℕ
  pub sig_tf : TrapFrame
  pub is_handling_signal : Bool
  pub is_thread : Bool
  pub mem_parent : Option ℕ

abbrev pub is_sleeping : ProcState → Bool
is_sleeping sleeping = true
is_sleeping _ = false

unfoldable pub setkilled : Proc → Proc
setkilled p = record p { killed = true }
