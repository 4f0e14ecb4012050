-- ===== src/Kernel/Signal.antt =====
-- Signals: `sys_signal` and `sys_sigreturn` (kernel/sysproc.c), `kkill` (kernel/proc.c), and the
-- delivery at the end of `usertrap` (kernel/trap.c). A handler is its address, as a `uint64`.
mod Mask
pub mod Deliver
pub mod Interrupt
pub mod Kill
mod Tests
unfoldable pub use Mask.*
use operating_system_lab_pro.Prelude.{
  ℕ, zero, suc, ◌+◌, ◌-◌, ◌^◌, Bool, true, false, not, ◌&&◌, ◌||◌, List, [], ◌∷◌, get_or, set, ◌==◌,
  if◌then◌else◌, ℤ, pos, minus_one, pos_part, ltb_ℤ, leb_ℤ, eq_ℤ,
}
use operating_system_lab_pro.Kernel.Proc.{
  ProcState, sleeping, runnable, TrapFrame, Proc, is_sleeping, setkilled,
}

abbrev pub sigkill : ℕ
sigkill = 9

-- (void (*)(int))-1
abbrev pub sig_dfl : ℕ
sig_dfl = 2 ^ 64 - 1

-- (void (*)(int))-2
abbrev pub sig_ign : ℕ
sig_ign = 2 ^ 64 - 2

-- `signum < 0 || signum >= NSIG`
pub bad_signum : ℤ → Bool
bad_signum signum = ltb_ℤ signum (pos 0) || leb_ℤ (pos nsig) signum

-- `sys_signal`, called by the process `p`.
pub sys_signal : Proc → (signum : ℤ) (handler_addr : ℕ) → Proc × ℤ
unfolding bad_signum
sys_signal p signum handler_addr =
    if bad_signum signum || eq_ℤ signum (pos sigkill) then (p, minus_one) else (
      record p { signal_handlers = set p.signal_handlers (pos_part signum) handler_addr },
      pos 0,
    )

-- The body of the test `p->pid == pid` in `kkill`.
pub hit : ℕ → Proc → Proc
hit signum p = record p {
  pending_signals = set_signal signum p.pending_signals;
  killed = if signum == sigkill then true else p.killed;
  state = if is_sleeping p.state then runnable else p.state;
}

-- The loop of `kkill`.
pub kkill_scan : ℤ → ℕ → List Proc → List Proc × ℤ
kkill_scan pid signum [] = ([], minus_one)
kkill_scan pid signum (p ∷ ps) =
    let (ps', r) = kkill_scan pid signum ps in
    if eq_ℤ p.pid pid then (hit signum p ∷ ps, pos 0) else (p ∷ ps', r)

pub kkill : ℤ → ℤ → List Proc → List Proc × ℤ
unfolding bad_signum kkill_scan hit
kkill pid signum procs =
    if bad_signum signum then (procs, minus_one) else kkill_scan pid (pos_part signum) procs

-- The handler that `p` has for signal `i`.
abbrev pub handler : Proc → ℕ → ℕ
handler p i = get_or p.signal_handlers i sig_dfl

-- What the body of the delivery loop does with signal `i`.
pub data Disposition : Type 0 where
  absent ignored default caught : Disposition

pub classify : Proc → ℕ → Disposition
classify p i =
    if has_signal p.pending_signals i
    then if handler p i == sig_ign
      then ignored
      else if handler p i == sig_dfl
      then default
      else caught
    else absent

-- The bit of signal `i` is cleared.
abbrev pub cleared : Proc → ℕ → Proc
cleared p i = record p { pending_signals = clear_signal i p.pending_signals }

-- Case 3 of the loop: the trap frame is saved, and the process will run the handler.
abbrev pub run_handler : Proc → ℕ → Proc
run_handler p i = record p {
  sig_tf = p.trapframe;
  is_handling_signal = true;
  trapframe = record (p.trapframe) { epc = handler p i; a0 = i };
  pending_signals = clear_signal i p.pending_signals;
}

-- `for(int i=0; i<32; i++)` with `n` rounds left.
pub deliver_loop : ℕ → ℕ → Proc → Proc
deliver_loop zero i p = p
deliver_loop (suc n) i p = elim (classify p i) [
  | absent ↦ deliver_loop n (i + 1) p
  | ignored ↦ deliver_loop n (i + 1) (cleared p i)
  | default ↦ setkilled p
  | caught ↦ run_handler p i
]

-- `usertrap`, from the test of `pending_signals` to the end of the loop.
pub deliver : Proc → Proc
deliver p =
    if any_signal p.pending_signals && not p.is_handling_signal then deliver_loop nsig 0 p else p

-- `sys_sigreturn`, and the `uint64` that it returns.
pub sys_sigreturn : Proc → Proc × ℕ
sys_sigreturn p = (record p { trapframe = p.sig_tf; is_handling_signal = false }, p.sig_tf.a0)

-- `syscall` stores the return value of a system call in `a0`.
abbrev pub finish_syscall : Proc × ℕ → Proc
finish_syscall (p, r) = record p { trapframe = record (p.trapframe) { a0 = r } }
