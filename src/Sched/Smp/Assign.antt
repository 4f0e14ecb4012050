-- ===== src/Sched/Smp/Assign.antt =====
-- The turns of all CPUs of a cycle: afterwards the CPUs run the best processes there are.
use operating_system_lab_pro.Prelude.{
  ℕ, zero, suc, ◌+◌, ◌<◌, ◌≡◌, refl, sym, ap, ◌∙◌, none, some, arith, length, ℤ, ℕ_discrete, inl,
  inr,
}
use operating_system_lab_pro.Sched.Smp.{
  Process, Cpu, Machine, pick, started, stopped, cpu_at, take_turn,
}
use operating_system_lab_pro.Sched.Smp.Pick.{IsBest, NoneBelow, pick_lem}
use operating_system_lab_pro.Sched.Smp.Consistent.{Consistent, Dominates}
use operating_system_lab_pro.Sched.Smp.Turn.{Turned, take_turn-Turned}

-- The turn of CPU `i`, if there is a process to choose.
unfoldable pub one_turn : (Process → ℕ) → (Process → ℤ → ℤ) → (bound now i : ℕ) → Machine → Machine
one_turn key quantum bound now i s = elim (pick key bound now s.procs) [
  | none ↦ s
  | some b ↦ take_turn key quantum now i b s
]

-- The turns of the CPUs from `i` on, `n` of them: each takes the best process there is then.
unfoldable pub assign : (Process → ℕ) → (Process → ℤ → ℤ) → (bound now n i : ℕ) → Machine → Machine
assign key quantum bound now zero i s = s
assign key quantum bound now (suc n) i s =
    assign key quantum bound now n (i + 1) (one_turn key quantum bound now i s)

-- The CPUs below `i` have had their turns: none of their processes should give way to a waiting one,
-- and if one of them is idle, nobody waits.
pub record Ranked (key : Process → ℕ) (bound now i : ℕ) (s : Machine) : Type 0 where
  pub consistent : Consistent s
  pub best : (k : ℕ) → k < i → Dominates key bound now s k
  pub full : (k : ℕ) → k < i → (cpu_at s k).current ≡ none → NoneBelow key now s.procs bound

module _ (key : Process → ℕ) (quantum : Process → ℤ → ℤ) (bound now : ℕ)
    (same_started : (p : Process) (i : ℕ) → key (started p i now) ≡ key p)
    (same_stopped : (p : Process) → key (stopped p) ≡ key p) where
  pub turn_none :
      (i : ℕ) (s : Machine)
      → pick key bound now s.procs ≡ none
      → one_turn key quantum bound now i s ≡ s
  unfolding one_turn
  turn_none i s e = ground arith

  pub turn_some :
      (i b : ℕ) (s : Machine)
      → pick key bound now s.procs ≡ some b
      → one_turn key quantum bound now i s ≡ take_turn key quantum now i b s
  unfolding one_turn
  turn_some i b s e = ground arith

  abbrev Next : ℕ → Machine → Machine → Type 0
  Next i s t = Ranked key bound now (i + 1) t × (length t.cpus ≡ length s.cpus)

  none-Ranked :
      (i : ℕ) (s : Machine)
      → Ranked key bound now i s
      → NoneBelow key now s.procs bound
      → Next i s s
  none-Ranked i s v h = (
    record {
      consistent = v.consistent;
      best =
          λ k lt. record { least = λ r p j q e1 e2 e3 e4 e5. absurd (omega (arith, h j q e3 e4)) };
      full = λ k lt e. h;
    },
    refl,
  )

  some-Ranked :
      (i b : ℕ) (s t : Machine)
      → Ranked key bound now i s
      → IsBest key now bound s.procs b
      → Turned key bound now i s t
      → Next i s t
  some-Ranked i b s t v w u = (
    record {
      consistent = u.consistent;
      best = λ k lt. elim (ℕ_discrete k i) [
        | yes same ↦ rw same u.self
        | no ne ↦ u.others k ne (v.best k (omega arith))
      ];
      full = λ k lt e. elim (ℕ_discrete k i) [
        | yes same ↦ absurd (u.busy (rw same at e))
        | no ne ↦ absurd (
            omega (
              arith,
              v.full k (omega arith) (ap (λ (c : Cpu). c.current) (sym (u.apart k ne)) ∙ e) b
                  w.winner w.at w.fit,
              w.small,
            ))
      ];
    },
    u.num_cpus,
  )

  turn-Ranked :
      (i : ℕ) (s : Machine)
      → i < length s.cpus
      → Ranked key bound now i s
      → Next i s (one_turn key quantum bound now i s)
  turn-Ranked i s lt v = elim (pick_lem key now bound s.procs) [
    | inl (e, h) ↦ rw (turn_none i s e) (none-Ranked i s v h)
    | inr (b, e, w) ↦ rw (turn_some i b s e) (
        some-Ranked i b s (take_turn key quantum now i b s) v w
          (take_turn-Turned key quantum bound now same_started same_stopped v.consistent i lt b w))
  ]

  pub assign-Ranked :
      (n i : ℕ) (s : Machine)
      → i + n ≡ length s.cpus
      → Ranked key bound now i s
      → Ranked key bound now (length s.cpus) (assign key quantum bound now n i s)
        × (length (assign key quantum bound now n i s).cpus ≡ length s.cpus)
  unfolding assign
  assign-Ranked zero i s e v = let at : i ≡ length s.cpus = omega arith in (rw (← at) v, refl)
  assign-Ranked (suc n) i s e v =
      let (v', size) = turn-Ranked i s (omega arith) v in
      let (w, size') =
        assign-Ranked n (i + 1) (one_turn key quantum bound now i s) (omega (arith, size)) v' in
      (rw (← size) w, size' ∙ size)
