-- ===== src/Kernel/Signal/Interrupt.antt =====
-- What a process sees of a signal: the interruption, the default action, and the way back from the
-- handler.
use mathlib.Core.Path.{subst}
use operating_system_lab_pro.Prelude.{
  ℕ, ◌<◌, ◌≡◌, ◌≢◌, refl, ap, sym, ◌∙◌, true, false, ◌&&◌, arith, ltb, get_or, List, [], ◌∷◌, ℤ,
  Bool-cases, inl, inr,
}
use operating_system_lab_pro.Kernel.Proc.{TrapFrame, Proc, setkilled}
use operating_system_lab_pro.Kernel.Signal.{
  nsig, has_signal, any_signal, has-clear_signal, any_signal_of_has, sig_dfl, sig_ign, handler,
  run_handler, deliver, deliver_loop, sys_signal, hit, sys_sigreturn, finish_syscall,
}
use operating_system_lab_pro.Kernel.Signal.Deliver.{
  IsFirst, Passed, Passed-refl, Skipped, act, loop-Reaches, loop_passes,
}

-- Signal `k` interrupts `p`: it will run the handler with the number of the signal as its argument,
-- its registers are saved, and the signals up to `k` are no longer pending.
pub record Interrupted (p : Proc) (k : ℕ) (q : Proc) : Type 0 where
  pub frame : q.trapframe ≡ record (p.trapframe) { epc = handler p k; a0 = k }
  pub saved : q.sig_tf ≡ p.trapframe
  pub guarded : q.is_handling_signal ≡ true
  pub alive : q.killed ≡ p.killed
  pub left :
      (j : ℕ)
      → j < nsig
      → has_signal q.pending_signals j ≡ (has_signal p.pending_signals j && ltb k j)

-- What may happen to a process while a handler of it runs: its registers change, `kkill` hits it, the end of
-- `usertrap` looks for signals, or it calls `sys_signal`.
pub data Event : Type 0 where
  computes : TrapFrame → Event
  signalled : (signum : ℕ) → Event
  trapped : Event
  sets : (signum : ℤ) (handler_addr : ℕ) → Event

abbrev pub happen : Event → Proc → Proc
happen (computes t) p = record p { trapframe = t }
happen (signalled signum) p = hit signum p
happen trapped p = deliver p
happen (sets signum addr) p = (sys_signal p signum addr).0

abbrev pub happens : List Event → Proc → Proc
happens [] p = p
happens (e ∷ es) p = happens es (happen e p)

abbrev Keeps : Proc → Proc → Type 0
Keeps p q = (q.sig_tf ≡ p.sig_tf) × (q.is_handling_signal ≡ true)

-- While a handler runs, the saved registers and the guard stay.
happen-Keeps : (e : Event) (p : Proc) → p.is_handling_signal ≡ true → Keeps p (happen e p)
unfolding hit deliver sys_signal
happen-Keeps (computes t) p busy = (refl, busy)
happen-Keeps (signalled signum) p busy = (refl, busy)
happen-Keeps trapped p busy = ground (arith, busy)
happen-Keeps (sets signum addr) p busy = ground (arith, busy)

happens-Keeps : (es : List Event) (p : Proc) → p.is_handling_signal ≡ true → Keeps p (happens es p)
happens-Keeps [] p busy = (refl, busy)
happens-Keeps (e ∷ es) p busy =
    let now = happen-Keeps e p busy in
    let later = happens-Keeps es (happen e p) now.1 in (later.0 ∙ now.0, later.1)

module _ (p : Proc) (k : ℕ) (f : IsFirst p 0 k) (free : p.is_handling_signal ≡ false) where
  deliver-act : (q : Proc) × Skipped p 0 k q × (deliver p ≡ act q k)
  unfolding deliver
  deliver-act =
      let (q, s, t) = loop-Reaches nsig 0 k p (omega arith) f in
      (q, s, ground (arith, any_signal_of_has p.pending_signals k f.in_range f.pending, t))

  module _ (q : Proc) (s : Skipped p 0 k q) where
    handler-eq : handler q k ≡ handler p k
    handler-eq = ap (λ hs. get_or hs k sig_dfl) s.kept.same_handlers

    act_default : handler p k ≡ sig_dfl → act q k ≡ setkilled q
    act_default e = ground (arith, handler-eq)

    act_custom : handler p k ≢ sig_dfl → act q k ≡ run_handler q k
    act_custom e = ground (arith, handler-eq)

    run_handler-Interrupted : Interrupted p k (run_handler q k)
    run_handler-Interrupted = record {
      frame = ground (arith, handler-eq, s.kept);
      saved = s.kept.same_frame;
      guarded = refl;
      alive = s.kept.same_killed;
      left = λ j l. ground (arith, has-clear_signal q.pending_signals j k l f.in_range, s.left j l);
    }

  -- A process that handles no signal, whose first pending and not ignored signal is `k`, and that has
  -- a handler for `k`, is interrupted by `k`: it will run the handler with `k` as its argument, its
  -- registers are saved, no delivery is open, and of the signals only those after `k` stay pending.
  pub deliver_caught : handler p k ≢ sig_dfl → Interrupted p k (deliver p)
  deliver_caught custom =
      let (q, s, t) = deliver-act in
      subst (Interrupted p k) (sym (t ∙ act_custom q s custom)) (run_handler-Interrupted q s)

  -- If `k` has the default action instead, the process is killed and its registers are as they were.
  pub deliver_default :
      handler p k ≡ sig_dfl
      → ((deliver p).killed ≡ true)
        × ((deliver p).trapframe ≡ p.trapframe)
        × ((deliver p).is_handling_signal ≡ false)
  unfolding setkilled
  deliver_default dfl =
      let (q, s, t) = deliver-act in
      let e = t ∙ act_default q s dfl in
      (
        ap (λ (r : Proc). r.killed) e,
        ap (λ (r : Proc). r.trapframe) e ∙ s.kept.same_frame,
        ap (λ (r : Proc). r.is_handling_signal) e ∙ (s.kept.same_guard ∙ free),
      )

  -- A process that handles no signal gets its first pending and not ignored signal delivered to a handler. Whatever
  -- happens from then to `sigreturn`, in any order and as often as it may - the handler changes the
  -- registers, `kkill` sends signals, traps try to deliver what is pending, `sys_signal` sets
  -- handlers - the interrupted computation gets its registers back, `a0` included, and delivery
  -- is open again.
  pub sigreturn_restores :
      handler p k ≢ sig_dfl
      → (es : List Event)
      → let q = finish_syscall (sys_sigreturn (happens es (deliver p))) in
        (q.trapframe ≡ p.trapframe) × (q.is_handling_signal ≡ false)
  unfolding sys_sigreturn
  sigreturn_restores custom es =
      let i = deliver_caught custom in
      ground (arith, (happens-Keeps es (deliver p) i.guarded).0, i.saved)

deliver_open :
    (p : Proc)
    → any_signal p.pending_signals ≡ true
    → p.is_handling_signal ≡ false
    → deliver p ≡ deliver_loop nsig 0 p
unfolding deliver
deliver_open p e free = ground arith

deliver_quiet : (p : Proc) → any_signal p.pending_signals ≡ false → deliver p ≡ p
unfolding deliver
deliver_quiet p e = ground arith

abbrev Settled : Proc → Proc → Type 0
Settled p q = Passed p q × ((j : ℕ) → j < nsig → has_signal q.pending_signals j ≡ false)

-- If every pending signal is ignored, none of them is pending afterwards and nothing else changes.
pub deliver_ignored :
    (p : Proc)
    → p.is_handling_signal ≡ false
    → ((j : ℕ) → j < nsig → has_signal p.pending_signals j ≡ true → handler p j ≡ sig_ign)
    → Passed p (deliver p) × ((j : ℕ) → j < nsig → has_signal (deliver p).pending_signals j ≡ false)
deliver_ignored p free f = elim (Bool-cases (any_signal p.pending_signals)) [
  | inl busy ↦
      let s = loop_passes nsig 0 p (omega arith) (λ j lo hi e. f j hi e) in
      subst (Settled p) (sym (deliver_open p busy free)) (s.kept, λ j l. ground (arith, s.left j l))
  | inr quiet ↦
      subst (Settled p) (sym (deliver_quiet p quiet))
        (Passed-refl p, λ j l. ground (arith, any_signal_of_has p.pending_signals j l))
]
