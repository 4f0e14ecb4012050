-- ===== src/Kernel/Family/Tests.antt =====
-- A family of three: the first process, its child 1, and 2, a child of 1.
use operating_system_lab_pro.Prelude.{
  ℕ, negsuc, ◌≡◌, refl, arith, false, List, [], ◌∷◌, Option, none, some, ℤ, pos, map, eq_ℤ,
}
use operating_system_lab_pro.Kernel.Proc.{
  ProcState, Proc, TrapFrame, running, runnable, sleeping, zombie,
}
use operating_system_lab_pro.Kernel.FlatMemory.{flat}
use operating_system_lab_pro.Kernel.Family.{kexit, round, chan_of}
use operating_system_lab_pro.Kernel.Family.Scan.{Ends, round-Ends}
use operating_system_lab_pro.Kernel.Family.Exit.{IsOver, kexit-IsOver}

abbrev frame : TrapFrame
frame = record { epc = 0; sp = 0; a0 = 0; rest = [] }

abbrev member : (pid : ℕ) → Option ℕ → ProcState → (chan : ℕ) → Proc
member pid parent state chan = record {
  state = state;
  chan = chan;
  killed = false;
  xstate = pos 0;
  pid = pos pid;
  parent = parent;
  trapframe = frame;
  name = [];
  pending_signals = λ j. false;
  signal_handlers = [];
  sig_tf = frame;
  is_handling_signal = false;
  is_thread = false;
  mem_parent = none;
  sz = 4096;
}

-- The first process waits for its child.
abbrev init_waits : Proc
init_waits = member 1 none sleeping (chan_of 0)

abbrev family : List Proc
family = init_waits ∷ member 2 (some 0) running 0 ∷ member 3 (some 1) zombie 0 ∷ []

-- The bytes of a small `int`.
abbrev small_bytes : ℤ → List ℕ
small_bytes (pos n) = n ∷ 0 ∷ 0 ∷ 0 ∷ []
small_bytes (negsuc n) = 255 ∷ 255 ∷ 255 ∷ 255 ∷ []

abbrev states : Option (List Proc) → List (ProcState × Option ℕ)
states none = []
states (some ps) = map (λ (p : Proc). (p.state, p.parent)) ps

exit_runs :
    states (kexit 1 0 (pos 7) family) ≡ (runnable, none) ∷ (zombie, some 0) ∷ (zombie, some 0) ∷ []
unfolding kexit
exit_runs = refl

kexit-IsOver_example : (t : List Proc) × (kexit 1 0 (pos 7) family ≡ some t) × IsOver 1 (pos 7) t
kexit-IsOver_example = kexit-IsOver 1 0 (pos 7) family (λ e. omega (arith, e)) (omega arith)

abbrev caller : Proc
caller = member 2 (some 0) running 0

round-Ends_example :
    Ends flat small_bytes
      (λ p. eq_ℤ p.pid (pos 3))
      (0 ∷ 0 ∷ 0 ∷ 0 ∷ 0 ∷ [])
      1
      caller
      1
      family
      (round flat small_bytes (λ p. eq_ℤ p.pid (pos 3)) (0 ∷ 0 ∷ 0 ∷ 0 ∷ 0 ∷ []) 1 caller 1 family)
round-Ends_example =
    round-Ends flat small_bytes (λ p. eq_ℤ p.pid (pos 3)) (0 ∷ 0 ∷ 0 ∷ 0 ∷ 0 ∷ []) 1 caller 1 family
