-- ===== src/Kernel/Signal/Deliver.antt =====
-- Delivery: which signal `usertrap` acts on, and the way back from a handler.
use mathlib.Core.Path.{subst}
use operating_system_lab_pro.Prelude.{
  get_or, ℕ, zero, suc, ◌+◌, ◌≤◌, ◌<◌, ◌≡◌, ◌≢◌, ap, sym, ◌∙◌, true, false, not, ◌&&◌, arith, ltb,
  leb, ◌==◌, if◌then◌else◌, Bool-cases, inl, inr, dec_lt,
}
use operating_system_lab_pro.Kernel.Proc.{Proc, setkilled}
use operating_system_lab_pro.Kernel.Signal.{
  nsig, has_signal, has-clear_signal, sig_dfl, sig_ign, handler, classify, cleared, run_handler,
  deliver_loop,
}

-- Signal `k` is the first from `i` on that is pending and not ignored.
pub record IsFirst (p : Proc) (i k : ℕ) : Type 0 where
  pub from : i ≤ k
  pub in_range : k < nsig
  pub pending : has_signal p.pending_signals k ≡ true
  pub heard : handler p k ≢ sig_ign
  pub others :
      (j : ℕ) → i ≤ j → j < k → has_signal p.pending_signals j ≡ true → handler p j ≡ sig_ign

-- What the loop from `i` leaves alone in every case.
pub record Passed (p q : Proc) : Type 0 where
  pub same_handlers : q.signal_handlers ≡ p.signal_handlers
  pub same_frame : q.trapframe ≡ p.trapframe
  pub same_saved : q.sig_tf ≡ p.sig_tf
  pub same_guard : q.is_handling_signal ≡ p.is_handling_signal
  pub same_killed : q.killed ≡ p.killed
  pub same_state : q.state ≡ p.state

-- `q` is `p` with the signals from `i` up to `k`, `k` excluded, no longer pending.
pub record Skipped (p : Proc) (i k : ℕ) (q : Proc) : Type 0 where
  pub kept : Passed p q
  pub left :
      (j : ℕ)
      → j < nsig
      → has_signal q.pending_signals j
        ≡ (has_signal p.pending_signals j && not (leb i j && ltb j k))

pub Passed-refl : (p : Proc) → Passed p p
Passed-refl p = ground arith

-- A round in which the process passes to `p'`, with signal `i` no longer pending.
record Round (p : Proc) (i : ℕ) (p' : Proc) : Type 0 where
  kept : Passed p p'
  gone :
      (j : ℕ)
      → j < nsig
      → has_signal p'.pending_signals j ≡ (has_signal p.pending_signals j && not (j == i))

absent-Round : (p : Proc) (i : ℕ) → has_signal p.pending_signals i ≡ false → Round p i p
absent-Round p i e = record {
  kept = Passed-refl p;
  gone = λ j lt. elim (Bool-cases (j == i)) [
    | inl same ↦ let at : j ≡ i = ground arith in rw (at, e)
    | inr other ↦ ground arith
  ];
}

cleared-Round : (p : Proc) (i : ℕ) → i < nsig → Round p i (cleared p i)
cleared-Round p i lt = record {
  kept = ground arith;
  gone = λ j l. has-clear_signal p.pending_signals j i l lt;
}

module _ {p p' : Proc} {i k : ℕ} (r : Round p i p') (f : IsFirst p i k) (lt : i < k) where
  handler_kept : (j : ℕ) → handler p' j ≡ handler p j
  handler_kept j = ap (λ hs. get_or hs j sig_dfl) r.kept.same_handlers

  IsFirst-next : IsFirst p' (i + 1) k
  IsFirst-next = record {
    from = omega arith;
    in_range = f.in_range;
    pending = ground (arith, r.gone k f.in_range, f.pending);
    heard = λ e. f.heard (sym (handler_kept k) ∙ e);
    others = λ j lo hi e.
        handler_kept j ∙ f.others j (omega arith) hi (ground (arith, r.gone j, f.in_range));
  }

module _ {p p' : Proc} {i k : ℕ} (r : Round p i p') (lt : i < k) where
  Skipped-next : {q : Proc} → Skipped p' (i + 1) k q → Skipped p i k q
  Skipped-next {q} s = record {
    kept = ground (arith, s.kept, r.kept);
    left = λ j l. ground (arith, s.left j, r.gone j);
  }

-- Case 2 or case 3 of the loop, by the handler.
abbrev pub act : Proc → ℕ → Proc
act q k = if handler q k == sig_dfl then setkilled q else run_handler q k

stop_at :
    (n k : ℕ) (p : Proc) → IsFirst p k k → Skipped p k k p × (deliver_loop (suc n) k p ≡ act p k)
unfolding deliver_loop classify
stop_at n k p f = (
  record { kept = Passed-refl p; left = λ j l. ground arith },
  ground (arith, f.pending, f.heard),
)

loop_ignored :
    (n i : ℕ) (p : Proc)
    → has_signal p.pending_signals i ≡ true
    → handler p i ≡ sig_ign
    → deliver_loop (suc n) i p ≡ deliver_loop n (i + 1) (cleared p i)
unfolding deliver_loop classify
loop_ignored n i p e h = ground arith

loop_absent :
    (n i : ℕ) (p : Proc)
    → has_signal p.pending_signals i ≡ false
    → deliver_loop (suc n) i p ≡ deliver_loop n (i + 1) p
unfolding deliver_loop classify
loop_absent n i p e = ground arith

abbrev pub Reaches : ℕ → ℕ → ℕ → Proc → Type 0
Reaches n i k p = (q : Proc) × Skipped p i k q × (deliver_loop n i p ≡ act q k)

-- The loop from `i` comes to `k`, having cleared the pending signals on its way.
pub loop-Reaches : (n i k : ℕ) (p : Proc) → i + n ≡ nsig → IsFirst p i k → Reaches n i k p
loop-Reaches zero i k p e f = absurd (omega (arith, f.in_range, f.from))
loop-Reaches (suc n) i k p e f = elim (dec_lt i k) [
  | yes lt ↦ elim (Bool-cases (has_signal p.pending_signals i)) [
    | inl has ↦
        let r = cleared-Round p i (omega (arith, f.in_range)) in
        let (q, s, t) =
          loop-Reaches n (i + 1) k (cleared p i) (omega arith) (IsFirst-next r f lt) in
        (q, Skipped-next r lt s, loop_ignored n i p has (f.others i (omega arith) lt has) ∙ t)
    | inr no_sig ↦
        let r = absent-Round p i no_sig in
        let (q, s, t) = loop-Reaches n (i + 1) k p (omega arith) (IsFirst-next r f lt) in
        (q, Skipped-next r lt s, loop_absent n i p no_sig ∙ t)
  ]
  | no le ↦
      let at : i ≡ k = omega (arith, f.from) in
      subst (λ i. IsFirst p i k → Reaches (suc n) i k p) (sym at)
        (λ g. let (s, t) = stop_at n k p g in (p, s, t)) f
]

-- The loop from `i`, if every pending signal is ignored.
pub loop_passes :
    (n i : ℕ) (p : Proc)
    → i + n ≡ nsig
    → ((j : ℕ) → i ≤ j → j < nsig → has_signal p.pending_signals j ≡ true → handler p j ≡ sig_ign)
    → Skipped p i nsig (deliver_loop n i p)
unfolding deliver_loop
loop_passes zero i p e f = record { kept = Passed-refl p; left = λ j l. ground arith }
loop_passes (suc n) i p e f = elim (Bool-cases (has_signal p.pending_signals i)) [
  | inl has ↦
      let r = cleared-Round p i (omega arith) in
      rw (loop_ignored n i p has (f i (omega arith) (omega arith) has)) (
        Skipped-next r (omega arith) (
          loop_passes n (i + 1) (cleared p i) (omega arith)
            (λ j lo hi e. f j (omega arith) hi (ground (arith, r.gone j hi)))))
  | inr no_sig ↦ rw (loop_absent n i p no_sig) (
      Skipped-next (absent-Round p i no_sig) (omega arith)
        (loop_passes n (i + 1) p (omega arith) (λ j lo hi e. f j (omega arith) hi e)))
]
