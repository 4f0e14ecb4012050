-- ===== src/Kernel/Signal/Tests.antt =====
-- Signals at concrete inputs: signal 1 is ignored, SIGINT (2) has a handler at 4096, all else has the
-- default action.
use operating_system_lab_pro.Prelude.{
  ℕ, zero, suc, ◌<◌, ◌≤◌, ◌≡◌, refl, arith, true, false, List, [], ◌∷◌, none, set, replicate, pos,
  negsuc, minus_one, Word, any_below,
}
use operating_system_lab_pro.Kernel.Proc.{Proc, TrapFrame, running, sleeping, unused}
use operating_system_lab_pro.Kernel.Signal.{
  nsig, sigkill, sig_dfl, sig_ign, has_signal, set_signal, handler, hit, kkill, deliver,
  sys_sigreturn, finish_syscall, deliver_loop, classify, any_signal, clear_signal,
}
use operating_system_lab_pro.Kernel.Signal.Deliver.{IsFirst}
use operating_system_lab_pro.Kernel.Signal.Interrupt.{
  Interrupted, Event, computes, signalled, trapped, sets, happens, deliver_caught,
  sigreturn_restores,
}
use operating_system_lab_pro.Kernel.Signal.Kill.{
  kkill_hits, kkill_fails, sys_signals, sigkill_uncatchable,
}

abbrev no_signal : Word
no_signal j = false

abbrev user_frame : TrapFrame
user_frame = record { epc = 100; sp = 0; a0 = 7; rest = 1 ∷ 2 ∷ [] }

abbrev calm : Proc
calm = record {
  state = running;
  chan = 0;
  killed = false;
  xstate = pos 0;
  pid = pos 3;
  parent = none;
  trapframe = user_frame;
  name = [];
  pending_signals = no_signal;
  signal_handlers = set (set (replicate nsig sig_dfl) 1 sig_ign) 2 4096;
  sig_tf = record { epc = 0; sp = 0; a0 = 0; rest = [] };
  is_handling_signal = false;
  is_thread = false;
  mem_parent = none;
  sz = 4096;
}

-- Signals 1 and 2 are pending.
abbrev signalled_proc : Proc
signalled_proc = record calm { pending_signals = set_signal 2 (set_signal 1 no_signal) }

-- Signal 0 is pending.
abbrev doomed : Proc
doomed = record calm { pending_signals = set_signal 0 no_signal }

signalled_others :
    (j : ℕ)
    → 0 ≤ j
    → j < 2
    → has_signal signalled_proc.pending_signals j ≡ true
    → handler signalled_proc j ≡ sig_ign
unfolding has_signal set_signal any_below
signalled_others zero lo hi e = absurd (cc)
signalled_others (suc zero) lo hi e = refl
signalled_others (suc (suc j)) lo hi e = absurd (omega arith)

signalled-IsFirst : IsFirst signalled_proc 0 2
unfolding has_signal set_signal any_below
signalled-IsFirst = record {
  from = omega arith;
  in_range = omega arith;
  pending = refl;
  heard = λ e. omega arith;
  others = signalled_others;
}

epc_runs : (deliver signalled_proc).trapframe ≡ record user_frame { epc = 4096; a0 = 2 }
unfolding deliver deliver_loop classify any_signal has_signal set_signal clear_signal any_below
epc_runs = refl

-- Signal 31 is set and tested as the sign-extended `1 << 31`.
signal_31 : (has_signal (set_signal 31 no_signal) 31 ≡ true) × (set_signal 31 no_signal 40 ≡ true)
unfolding has_signal set_signal any_below
signal_31 = (refl, refl)

deliver_caught_example : Interrupted signalled_proc 2 (deliver signalled_proc)
deliver_caught_example = deliver_caught signalled_proc 2 signalled-IsFirst refl (omega arith)

-- The handler changes the registers, signal 5 arrives, a trap leaves it pending, and a handler for it is set.
abbrev busy_time : List Event
busy_time =
    computes (record { epc = 5000; sp = 0; a0 = 1; rest = [] })
    ∷ signalled 5
    ∷ trapped
    ∷ sets (pos 5) 8192
    ∷ trapped
    ∷ []

sigreturn_restores_example :
    let q = finish_syscall (sys_sigreturn (happens busy_time (deliver signalled_proc))) in
    (q.trapframe ≡ user_frame) × (q.is_handling_signal ≡ false)
sigreturn_restores_example =
    sigreturn_restores signalled_proc 2 signalled-IsFirst refl (omega arith) busy_time

abbrev sleeper : Proc
sleeper = record calm { pid = pos 5; state = sleeping; chan = 64 }

kkill_hits_example :
    kkill (pos 5) (pos 9) (calm ∷ sleeper ∷ calm ∷ []) ≡ (calm ∷ hit 9 sleeper ∷ calm ∷ [], pos 0)
kkill_hits_example =
    kkill_hits (pos 5) 9 (calm ∷ []) sleeper (calm ∷ []) (omega arith) (refl, tt) refl

-- `pid` 0 names the first unused slot of the table.
abbrev slot : Proc
slot = record calm { pid = pos 0; state = unused }

kill_zero : kkill (pos 0) (pos 9) (calm ∷ slot ∷ []) ≡ (calm ∷ hit 9 slot ∷ [], pos 0)
kill_zero = kkill_hits (pos 0) 9 (calm ∷ []) slot [] (omega arith) (refl, tt) refl

kkill_fails_example : kkill (pos 6) (pos 9) (calm ∷ sleeper ∷ []) ≡ (calm ∷ sleeper ∷ [], minus_one)
kkill_fails_example = kkill_fails (pos 6) (pos 9) (calm ∷ sleeper ∷ []) (λ h. (refl, (refl, tt)))

sigkill_uncatchable_example :
    handler (sys_signals calm ((pos 9, 4096) ∷ (pos 2, 8192) ∷ (negsuc 0, 0) ∷ [])) sigkill
    ≡ sig_dfl
sigkill_uncatchable_example =
    sigkill_uncatchable calm ((pos 9, 4096) ∷ (pos 2, 8192) ∷ (negsuc 0, 0) ∷ [])
