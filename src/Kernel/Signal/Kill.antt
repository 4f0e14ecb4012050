-- ===== src/Kernel/Signal/Kill.antt =====
-- `kkill`: who is hit; and SIGKILL, which no handler stops.
use operating_system_lab_pro.Prelude.{
  ℕ, ◌<◌, ◌≡◌, ◌≢◌, refl, ◌∙◌, false, ◌||◌, List, [], ◌∷◌, ◌++◌, arith, get_or-set_ne, All, ◌==◌, ℤ,
  pos, pos_part, minus_one, eq_ℤ, Bool-cases, inl, inr,
}
use operating_system_lab_pro.Kernel.Proc.{Proc, sleeping}
use operating_system_lab_pro.Kernel.Signal.{
  nsig, sigkill, sig_dfl, has_signal, has-set_signal, bad_signum, sys_signal, hit, kkill_scan,
  kkill, handler,
}

-- No process of the list has the number `pid`.
abbrev pub Absent : ℤ → List Proc → Type 0
Absent pid ps = All (λ p. eq_ℤ p.pid pid ≡ false) ps

kkill_scan_found :
    (pid : ℤ) (signum : ℕ) (before : List Proc) (p : Proc) (after : List Proc)
    → Absent pid before
    → p.pid ≡ pid
    → kkill_scan pid signum (before ++ (p ∷ after)) ≡ (before ++ (hit signum p ∷ after), pos 0)
unfolding kkill_scan
kkill_scan_found pid signum [] p after h e = ground arith
kkill_scan_found pid signum (q ∷ before) p after h e =
    ground (arith, h.0, kkill_scan_found pid signum before p after h.1 e)

kkill_scan_missing :
    (pid : ℤ) (signum : ℕ) (ps : List Proc)
    → Absent pid ps
    → kkill_scan pid signum ps ≡ (ps, minus_one)
unfolding kkill_scan
kkill_scan_missing pid signum [] h = refl
kkill_scan_missing pid signum (p ∷ ps) h = ground (arith, h.0, kkill_scan_missing pid signum ps h.1)

-- With a valid signal number `kkill` returns 0 and hits the first process of the table whose `pid`
-- is the argument, and leaves every other entry as it is.
pub kkill_hits :
    (pid : ℤ) (signum : ℕ) (before : List Proc) (p : Proc) (after : List Proc)
    → signum < nsig
    → Absent pid before
    → p.pid ≡ pid
    → kkill pid (pos signum) (before ++ (p ∷ after)) ≡ (before ++ (hit signum p ∷ after), pos 0)
unfolding kkill bad_signum
kkill_hits pid signum before p after lt h e =
    ground (arith, kkill_scan_found pid signum before p after h e)

-- With no process of that pid in the table, or with a signal number out of range, `kkill` returns -1 and
-- changes nothing.
pub kkill_fails :
    (pid signum : ℤ) (ps : List Proc)
    → (bad_signum signum ≡ false → Absent pid ps)
    → kkill pid signum ps ≡ (ps, minus_one)
unfolding kkill
kkill_fails pid signum ps h = elim (Bool-cases (bad_signum signum)) [
  | inl bad ↦ ground arith
  | inr fine ↦ ground (arith, kkill_scan_missing pid (pos_part signum) ps (h fine))
]

-- What the victim sees: the signal is pending besides those that were, it is marked killed exactly if
-- it was or the signal is SIGKILL, and it no longer sleeps.
pub hit_lem :
    (signum : ℕ) (p : Proc)
    → signum < nsig
    → ((i : ℕ)
        → i < nsig
        → has_signal (hit signum p).pending_signals i
          ≡ (has_signal p.pending_signals i || i == signum))
      × ((hit signum p).killed ≡ (p.killed || signum == sigkill))
      × ((hit signum p).state ≢ sleeping)
unfolding hit
hit_lem signum p lt =
    (λ i l. has-set_signal p.pending_signals i signum l lt, ground arith, λ e. ground arith)

-- A request of `sys_signal`, by the process itself.
abbrev Request : Type 0
Request = ℤ × ℕ

pub sys_signals : Proc → List Request → Proc
sys_signals p [] = p
sys_signals p ((signum, addr) ∷ rs) = sys_signals (sys_signal p signum addr).0 rs

sys_signal-sigkill :
    (p : Proc) (signum : ℤ) (addr : ℕ)
    → handler (sys_signal p signum addr).0 sigkill ≡ handler p sigkill
unfolding sys_signal
sys_signal-sigkill p signum addr =
    ground (arith, get_or-set_ne p.signal_handlers (pos_part signum) sigkill addr sig_dfl)

-- No sequence of `sys_signal` calls changes the handler of SIGKILL.
pub sigkill_uncatchable :
    (p : Proc) (rs : List Request) → handler (sys_signals p rs) sigkill ≡ handler p sigkill
unfolding sys_signals
sigkill_uncatchable p [] = refl
sigkill_uncatchable p ((signum, addr) ∷ rs) =
    sigkill_uncatchable (sys_signal p signum addr).0 rs ∙ sys_signal-sigkill p signum addr
