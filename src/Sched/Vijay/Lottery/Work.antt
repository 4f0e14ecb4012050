-- ===== src/Sched/Vijay/Lottery/Work.antt =====
-- The trace of a lottery is the work that was done.
use operating_system_lab_pro.Prelude.{
  ℕ, zero, suc, ◌+◌, ◌%◌, ◌≤◌, ◌<◌, ◌≡◌, ◌≢◌, refl, sym, ap, ◌∙◌, true, List, [], ◌∷◌, none, some,
  arith, length, length-append, get_elem?, set, ltb, ℤ, pos, negsuc, pos_part, dec_ℤ, ltb_ℤ,
  Bool-cases, Option-cases, inl, inr, ℕ_discrete, sum_by, sum_by-set,
}
use mathlib.Core.Path.{subst}
use operating_system_lab_pro.Sched.Vijay.Lottery.{
  Process, active, total_tickets, owner_from, Sim, served, serve, lottery_loop,
}

abbrev pub left : Process → ℕ
left p = pos_part p.remaining_time

-- The time units of work that are left.
unfoldable pub total_left : List Process → ℕ
total_left ps = sum_by left ps

pub served_left : (v : ℤ) → ltb_ℤ (pos 0) v ≡ true → pos_part v ≡ suc (pos_part (dec_ℤ v))
served_left (pos zero) e = ground arith
served_left (pos (suc n)) e = refl
served_left (negsuc n) e = ground arith

owner_from-active :
    (time running winner i : ℕ) (ps : List Process) (b : ℕ)
    → owner_from time running winner i ps ≡ some b
    → (d : ℕ) × (b ≡ i + d) × (p : Process) × (get_elem? ps d ≡ some p) × (active time p ≡ true)
unfolding owner_from
owner_from-active time running winner i [] b e = absurd (cc)
owner_from-active time running winner i (p ∷ ps) b e = elim (Bool-cases (active time p)) [
  | inl on ↦ elim (Bool-cases (ltb running (winner + p.tickets))) [
    | inl reached ↦ (0, ground arith, p, refl, on)
    | inr short ↦
        let (d, eq, q, at, on') =
          owner_from-active time running (winner + p.tickets) (i + 1) ps b (ground arith) in
        (suc d, omega arith, q, at, on')
  ]
  | inr off ↦
      let (d, eq, q, at, on) = owner_from-active time running winner (i + 1) ps b (ground arith) in
      (suc d, omega arith, q, at, on)
]

owner_from_total :
    (time running winner i : ℕ) (ps : List Process)
    → winner ≤ running
    → running < winner + total_tickets time ps
    → owner_from time running winner i ps ≢ none
unfolding owner_from total_tickets
owner_from_total time running winner i [] lo hi e = absurd (omega arith)
owner_from_total time running winner i (p ∷ ps) lo hi e = elim (Bool-cases (active time p)) [
  | inl on ↦ elim (Bool-cases (ltb running (winner + p.tickets))) [
    | inl reached ↦ absurd (ground arith)
    | inr short ↦
        owner_from_total time running (winner + p.tickets) (i + 1) ps (ground arith) (ground arith)
          (ground arith)
  ]
  | inr off ↦ owner_from_total time running winner (i + 1) ps lo (ground arith) (ground arith)
]

-- What a time unit does when a process wins: one unit less is left, and the trace has one entry more.
pub serve_lem :
    (time w : ℕ) (s : Sim) (p : Process)
    → get_elem? s.procs w ≡ some p
    → active time p ≡ true
    → (total_left (serve time w s).procs + 1 ≡ total_left s.procs)
      × (length (serve time w s).trace ≡ length s.trace + 1)
      × ((serve time w s).procs ≡ set s.procs w (served p))
unfolding serve total_left
serve_lem time w s p at on =
    let one : pos_part p.remaining_time ≡ suc (pos_part (dec_ℤ p.remaining_time)) =
      served_left p.remaining_time (ground arith) in
    let total = sum_by-set left s.procs w p (served p) at in
    let ps : (serve time w s).procs ≡ set s.procs w (served p) = ground arith in
    (
      ap (λ qs. sum_by left qs + 1) ps ∙ omega (arith, one, total),
      ground (arith, length-append s.trace (record { time = time; pid = some p.pid } ∷ [])),
      ps,
    )

module _ (rand : ℕ → ℕ) where
  -- The next step of the loop: a stop, or a process that was active wins.
  pub data Next (n time draws : ℕ) (s : Sim) : Type 0 where
    stop :
        total_tickets time s.procs ≡ 0
        → lottery_loop rand (suc n) time draws s ≡ s
        → Next n time draws s
    wins :
        (w : ℕ) (p : Process)
        → get_elem? s.procs w ≡ some p
        → active time p ≡ true
        → lottery_loop rand (suc n) time draws s
          ≡ lottery_loop rand n (time + 1) (draws + 1) (serve time w s)
        → Next n time draws s

  pub Next-step : (n time draws : ℕ) (s : Sim) → Next n time draws s
  unfolding lottery_loop
  Next-step n time draws s = elim (ℕ_discrete (total_tickets time s.procs) 0) [
    | yes none_left ↦ stop none_left (ground arith)
    | no some! ↦
        let total = total_tickets time s.procs in
        let small : rand draws % total < total = grind arith in
        elim (Option-cases (owner_from time (rand draws % total) 0 0 s.procs)) [
          | inl missing ↦ absurd (
              owner_from_total time (rand draws % total) 0 0 s.procs (omega arith) (omega arith)
                missing)
          | inr (w, found) ↦
              let (d, eq, p, at, on) =
                owner_from-active time (rand draws % total) 0 0 s.procs w found in
              let same : w ≡ d = omega arith in
              wins w p (ap (get_elem? s.procs) same ∙ at) on (ground arith)
        ]
  ]

  abbrev pub Conserved : Sim → ℕ → Sim → Type 0
  Conserved s n t =
      (total_left t.procs + length t.trace ≡ total_left s.procs + length s.trace)
      × (length t.trace ≤ length s.trace + n)

  pub loop-Conserved :
      (n time draws : ℕ) (s : Sim) → Conserved s n (lottery_loop rand n time draws s)
  unfolding lottery_loop
  loop-Conserved zero time draws s = (refl, omega arith)
  loop-Conserved (suc n) time draws s =
      by_step n time draws s (Next-step n time draws s) (loop-Conserved n)
    where
      by_step :
          (n time draws : ℕ) (s : Sim)
          → Next n time draws s
          → ((time draws : ℕ) (s : Sim) → Conserved s n (lottery_loop rand n time draws s))
          → Conserved s (suc n) (lottery_loop rand (suc n) time draws s)
      by_step n time draws s (stop e t) ih = subst (Conserved s (suc n)) (sym t) (refl, omega arith)
      by_step n time draws s (wins w p at on t) ih =
          let (l, tr, ps) = serve_lem time w s p at on in
          let (c, b) = ih (time + 1) (draws + 1) (serve time w s) in
          subst (Conserved s (suc n)) (sym t) (omega (arith, l, tr, c), omega (arith, tr, b))
