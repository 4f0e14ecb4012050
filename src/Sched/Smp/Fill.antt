-- ===== src/Sched/Smp/Fill.antt =====
-- Idle CPUs take processes, without preemption (Aryan and Ayush).
use operating_system_lab_pro.Prelude.{
  ℕ, zero, suc, ◌+◌, ◌<◌, ◌≡◌, ◌≢◌, inl, inr, refl, ◌∙◌, true, List, Option, none, some, arith,
  length, length-set, get_elem?, get_elem?-set, get_or-set, ℤ, ℕ_discrete, Option-cases, sum_by,
  sum_by-set,
}
use operating_system_lab_pro.Sched.Smp.{
  Process, Cpu, Machine, eligible, started, idle_cpu, cpu_at, dispatch,
}
use operating_system_lab_pro.Sched.Smp.Consistent.{Consistent}
use operating_system_lab_pro.Sched.Smp.Dispatch.{dispatch-Consistent}
use operating_system_lab_pro.Sched.Smp.Every.{Every, set-Every}

-- A choice among the processes; it may draw from a sequence of random numbers, of which it counts the
-- draws.
abbrev pub Choice : Type 0
Choice = (now draws : ℕ) → List Process → Option ℕ × ℕ

-- CPU `i` takes the chosen process, if it is idle.
unfoldable pub fill_one :
    Choice → (Process → ℤ → ℤ) → (now i : ℕ) → Machine → (draws : ℕ) → Machine × ℕ
fill_one choose quantum now i s draws = elim (cpu_at s i).current [
  | some r ↦ (s, draws)
  | none ↦
      let (c, draws') = choose now draws s.procs in
      elim c [
        | none ↦ (s, draws')
        | some b ↦ elim (get_elem? s.procs b) [
          | none ↦ (s, draws')
          | some p ↦ (dispatch quantum now s i b p, draws')
        ]
      ]
]

-- The CPUs from `i` on, `n` of them.
unfoldable pub fill :
    Choice → (Process → ℤ → ℤ) → (now n i : ℕ) → Machine → (draws : ℕ) → Machine × ℕ
unfolding fill_one
fill choose quantum now zero i s draws = (s, draws)
fill choose quantum now (suc n) i s draws =
    let (t, draws') = fill_one choose quantum now i s draws in
    fill choose quantum now n (i + 1) t draws'

-- A choice takes an eligible process; where it takes none, no eligible process is one that is wanted.
pub record IsChoice (Wanted : Process → Type 0) (choose : Choice) : Type 0 where
  pub sound :
      (now draws : ℕ) (ps : List Process) (b : ℕ)
      → (choose now draws ps).0 ≡ some b
      → (p : Process) × (get_elem? ps b ≡ some p) × (eligible now p ≡ true)
  pub complete :
      (now draws : ℕ) (ps : List Process) (j : ℕ) (q : Process)
      → (choose now draws ps).0 ≡ none
      → get_elem? ps j ≡ some q
      → eligible now q ≡ true
      → ¬ Wanted q

module _ (Wanted : Process → Type 0) (choose : Choice) (quantum : Process → ℤ → ℤ)
    (good : IsChoice Wanted choose) where
  -- What has become of `s` when the CPUs below `i` are filled; `P` holds of all processes.
  pub record Filled (P : Process → Type 0) (now i : ℕ) (s : Machine) : Type 0 where
    pub consistent : Consistent s
    pub every : Every P s.procs
    pub full :
        (k j : ℕ) (q : Process)
        → k < i
        → (cpu_at s k).current ≡ none
        → get_elem? s.procs j ≡ some q
        → eligible now q ≡ true
        → ¬ Wanted q

  module _ (P : Process → Type 0) (now : ℕ)
      (starts : (p : Process) (i : ℕ) → eligible now p ≡ true → P p → P (started p i now)) where
    module _ (i : ℕ) (s : Machine) (draws : ℕ) (lt : i < length s.cpus) (v : Filled P now i s) where
      abbrev next : Machine
      next = (fill_one choose quantum now i s draws).0

      fill_busy : (r : ℕ) → (cpu_at s i).current ≡ some r → next ≡ s
      unfolding fill_one
      fill_busy r e = ground arith

      fill_nobody : (cpu_at s i).current ≡ none → (choose now draws s.procs).0 ≡ none → next ≡ s
      unfolding fill_one
      fill_nobody e c = ground arith

      fill_takes :
          (b : ℕ) (p : Process)
          → (cpu_at s i).current ≡ none
          → (choose now draws s.procs).0 ≡ some b
          → get_elem? s.procs b ≡ some p
          → next ≡ dispatch quantum now s i b p
      unfolding fill_one
      fill_takes b p e c at = ground arith

      takes-Filled :
          (b : ℕ) (p : Process)
          → (cpu_at s i).current ≡ none
          → get_elem? s.procs b ≡ some p
          → eligible now p ≡ true
          → Filled P now (i + 1) (dispatch quantum now s i b p)
      takes-Filled b p free at fit = record {
        consistent = dispatch-Consistent v.consistent i lt b now p quantum free at fit;
        every = set-Every P s.procs b (started p i now) v.every (starts p i fit (v.every b p at));
        full = λ k j q l idle e f.
            let cpu : Cpu = record {
              current = some b;
              quantum_left = quantum p (cpu_at s i).quantum_left;
            } in
            let ne : k ≢ i = λ same. ground (arith, get_or-set s.cpus i k cpu idle_cpu) in
            v.full k j q (omega arith) (ground (arith, get_or-set s.cpus i k cpu idle_cpu))
              (ground (arith, get_elem?-set s.procs b j (started p i now))) f;
      }

      fill_one-Filled : Filled P now (i + 1) next × (length next.cpus ≡ length s.cpus)
      fill_one-Filled = elim (Option-cases (cpu_at s i).current) [
        | inr (r, e) ↦ rw (fill_busy r e) (
          record {
            consistent = v.consistent;
            every = v.every;
            full = λ k j q l idle. elim (ℕ_discrete k i) [
              | yes same ↦ absurd (cc)
              | no ne ↦ v.full k j q (omega arith) idle
            ];
          },
          refl,
        )
        | inl e ↦ elim (Option-cases (choose now draws s.procs).0) [
          | inl c ↦ rw (fill_nobody e c) (
            record {
              consistent = v.consistent;
              every = v.every;
              full = λ k j q l idle. good.complete now draws s.procs j q c;
            },
            refl,
          )
          | inr (b, c) ↦
              let (p, at, fit) = good.sound now draws s.procs b c in
              rw (fill_takes b p e c at) (
                takes-Filled b p e at fit,
                length-set s.cpus i (record {
                  current = some b;
                  quantum_left = quantum p (cpu_at s i).quantum_left;
                }),
              )
        ]
      ]

      -- A measure that a start does not change is not changed by the turn.
      pub fill_one-sum :
          (w : Process → ℕ)
          → ((p : Process) → eligible now p ≡ true → w (started p i now) ≡ w p)
          → (sum_by w next.procs ≡ sum_by w s.procs) × (length next.procs ≡ length s.procs)
      fill_one-sum w same = elim (Option-cases (cpu_at s i).current) [
        | inr (r, e) ↦ rw (fill_busy r e) (refl, refl)
        | inl e ↦ elim (Option-cases (choose now draws s.procs).0) [
          | inl c ↦ rw (fill_nobody e c) (refl, refl)
          | inr (b, c) ↦
              let (p, at, fit) = good.sound now draws s.procs b c in
              rw (fill_takes b p e c at) (
                omega (arith, sum_by-set w s.procs b p (started p i now) at, same p fit),
                length-set s.procs b (started p i now),
              )
        ]
      ]

    pub fill-Filled :
        (n i : ℕ) (s : Machine) (draws : ℕ)
        → i + n ≡ length s.cpus
        → Filled P now i s
        → Filled P now (length s.cpus) (fill choose quantum now n i s draws).0
          × (length (fill choose quantum now n i s draws).0.cpus ≡ length s.cpus)
    unfolding fill
    fill-Filled zero i s draws e v = let at : i ≡ length s.cpus = omega arith in (rw (← at) v, refl)
    fill-Filled (suc n) i s draws e v =
        let (w, size) = fill_one-Filled i s draws (omega arith) v in
        let t = fill_one choose quantum now i s draws in
        let (w', size') = fill-Filled n (i + 1) t.0 t.1 (omega (arith, size)) w in
        (rw (← size) w', size' ∙ size)

    pub fill-sum :
        (w : Process → ℕ)
        → ((p : Process) (i : ℕ) → eligible now p ≡ true → w (started p i now) ≡ w p)
        → (n i : ℕ) (s : Machine) (draws : ℕ) → i + n ≡ length s.cpus
        → Filled P now i s
        → (sum_by w (fill choose quantum now n i s draws).0.procs ≡ sum_by w s.procs)
          × (length (fill choose quantum now n i s draws).0.procs ≡ length s.procs)
    unfolding fill
    fill-sum w same zero i s draws e v = (refl, refl)
    fill-sum w same (suc n) i s draws e v =
        let lt : i < length s.cpus = omega arith in
        let (v', size) = fill_one-Filled i s draws lt v in
        let (eq, len) = fill_one-sum i s draws lt v w (λ p. same p i) in
        let t = fill_one choose quantum now i s draws in
        let (eq', len') = fill-sum w same n (i + 1) t.0 t.1 (omega (arith, size)) v' in
        (eq' ∙ eq, len' ∙ len)
