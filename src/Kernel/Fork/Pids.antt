-- ===== src/Kernel/Fork/Pids.antt =====
-- Process IDs: what forks, exits and waits keep of them.
use operating_system_lab_pro.Prelude.{
  ℕ, ◌+◌, ◌≤◌, ◌<◌, ◌≡◌, ◌≢◌, refl, sym, ap, ◌∙◌, false, List, some, arith, get_elem?, set,
  get_elem?-set_self, get_elem?-set_ne, pos, pos_part, ℕ_discrete, inl, inr, ◌⊎◌, lt_of_get_elem?,
}
use mathlib.Core.Path.{subst}
use operating_system_lab_pro.Kernel.Proc.{Proc}
use operating_system_lab_pro.Kernel.Fork.{Table, is_unused}

abbrev pub Live : Proc → Type 0
Live p = is_unused p.state ≡ false

-- The processes of the table have process IDs from 1 on below `nextpid`, and no two the same.
pub record IsTable (t : Table) : Type 0 where
  pub unique :
      (i j : ℕ) (p q : Proc)
      → get_elem? t.procs i ≡ some p
      → get_elem? t.procs j ≡ some q
      → Live p
      → Live q
      → p.pid ≡ q.pid
      → i ≡ j
  pub positive : (i : ℕ) (p : Proc) → get_elem? t.procs i ≡ some p → Live p → 0 < pos_part p.pid
  pub small :
      (i : ℕ) (p : Proc) → get_elem? t.procs i ≡ some p → Live p → pos_part p.pid < t.nextpid
  pub next : 0 < t.nextpid

-- Every process of the second table was there before, with its process ID.
pub record Was (ps : List Proc) (j : ℕ) (q : Proc) : Type 0 where
  pub before : Proc
  pub at : get_elem? ps j ≡ some before
  pub live : Live before
  pub same : before.pid ≡ q.pid

abbrev pub Kept : (ps qs : List Proc) → Type 0
Kept ps qs = (j : ℕ) (q : Proc) → get_elem? qs j ≡ some q → Live q → Was ps j q

pub Kept-refl : (ps : List Proc) → Kept ps ps
Kept-refl ps j q at live = record { before = q; at = at; live = live; same = refl }

pub Kept-trans : (ps qs rs : List Proc) → Kept ps qs → Kept qs rs → Kept ps rs
Kept-trans ps qs rs f g j q at live =
    let b = g j q at live in
    let a = f j b.before b.at b.live in
    record { before = a.before; at = a.at; live = a.live; same = a.same ∙ b.same }

-- What a table holds after a write to entry `i`.
pub set_at :
    (ps : List Proc) (i j : ℕ) (p q r : Proc)
    → get_elem? ps i ≡ some p
    → get_elem? (set ps i q) j ≡ some r
    → ((i ≡ j) × (q ≡ r)) ⊎ ((i ≢ j) × (get_elem? ps j ≡ some r))
set_at ps i j p q r at at' = elim (ℕ_discrete i j) [
  | yes e ↦
      let same : some q ≡ some r =
        sym (get_elem?-set_self ps i q (lt_of_get_elem? ps i p at))
        ∙ ap (get_elem? (set ps i q)) e
        ∙ at' in
      inl (e, cc)
  | no ne ↦ inr (ne, sym (get_elem?-set_ne ps i j q ne) ∙ at')
]

-- A process that changes but keeps its process ID, or that is freed.
pub Kept-set :
    (ps : List Proc) (i : ℕ) (p q : Proc)
    → get_elem? ps i ≡ some p
    → (Live q → Live p × (p.pid ≡ q.pid))
    → Kept ps (set ps i q)
Kept-set ps i p q at h j r at' live = elim (set_at ps i j p q r at at') [
  | inl (e, same) ↦
      let (live', pid) = h (subst Live (sym same) live) in
      record {
        before = p;
        at = subst (λ k. get_elem? ps k ≡ some p) e at;
        live = live';
        same = pid ∙ ap (λ (o : Proc). o.pid) same;
      }
  | inr (ne, at0) ↦ Kept-refl ps j r at0 live
]

module _ (t : Table) (v : IsTable t) where
  pub Kept-IsTable :
      (qs : List Proc) (n : ℕ)
      → t.nextpid ≤ n
      → Kept t.procs qs
      → IsTable (record { procs = qs; nextpid = n })
  Kept-IsTable qs n le h = record {
    unique = λ i j p q ati atj lp lq e.
        let a = h i p ati lp in
        let b = h j q atj lq in
        v.unique i j a.before b.before a.at b.at a.live b.live (a.same ∙ e ∙ sym b.same);
    positive = λ i p at l.
        let a = h i p at l in
        subst (λ k. 0 < pos_part k) a.same (v.positive i a.before a.at a.live);
    small = λ i p at l.
        let a = h i p at l in
        let lt = subst (λ k. pos_part k < t.nextpid) a.same (v.small i a.before a.at a.live) in
        omega arith;
    next = omega (arith, v.next);
  }

  -- A process that takes the next process ID.
  module _ (i : ℕ) (p q : Proc) (at : get_elem? t.procs i ≡ some p)
      (e : q.pid ≡ pos t.nextpid) where
    -- It has no other's.
    new_pid : (j : ℕ) (r : Proc) → get_elem? t.procs j ≡ some r → Live r → r.pid ≢ q.pid
    new_pid j r atj live same =
        let k = pos_part r.pid in
        let e' : k ≡ t.nextpid = ap pos_part (same ∙ e) in omega (arith, v.small j r atj live, e')

    pub fresh-IsTable : IsTable (record { procs = set t.procs i q; nextpid = t.nextpid + 1 })
    fresh-IsTable = record {
      unique = λ a b p' q' ata atb la lb same. elim (set_at t.procs i a p q p' at ata) [
        | inl (ea, pa) ↦ elim (set_at t.procs i b p q q' at atb) [
          | inl (eb, pb) ↦ sym ea ∙ eb
          | inr (nb, old) ↦
              absurd (new_pid b q' old lb (sym same ∙ sym (ap (λ (o : Proc). o.pid) pa)))
        ]
        | inr (na, old) ↦ elim (set_at t.procs i b p q q' at atb) [
          | inl (eb, pb) ↦ absurd (new_pid a p' old la (same ∙ sym (ap (λ (o : Proc). o.pid) pb)))
          | inr (nb, old') ↦ v.unique a b p' q' old old' la lb same
        ]
      ];
      positive = λ j r atj live. elim (set_at t.procs i j p q r at atj) [
        | inl (ej, same) ↦
            subst (λ (o : Proc). 0 < pos_part o.pid) same
              (subst (λ k. 0 < pos_part k) (sym e) v.next)
        | inr (nj, old) ↦ v.positive j r old live
      ];
      small = λ j r atj live. elim (set_at t.procs i j p q r at atj) [
        | inl (ej, same) ↦
            subst (λ (o : Proc). pos_part o.pid < t.nextpid + 1) same
              (subst (λ k. pos_part k < t.nextpid + 1) (sym e) (omega arith))
        | inr (nj, old) ↦ omega (arith, v.small j r old live)
      ];
      next = omega arith;
    }
