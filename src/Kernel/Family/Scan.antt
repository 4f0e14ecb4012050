-- ===== src/Kernel/Family/Scan.antt =====
-- What a round of `kwait` or `kjoin` does.
use operating_system_lab_pro.Prelude.{
  ℕ, zero, suc, ◌+◌, ◌<◌, ◌≡◌, ◌≢◌, refl, sym, ap, ◌∙◌, Bool, true, false, ◌&&◌, List, [], ◌∷◌,
  Option, none, some, arith, get_elem?, set, if◌then◌else◌, ℤ, minus_one, Bool-cases, inl, inr, ◌⊎◌,
  ℕ_discrete,
}
use mathlib.Core.Path.{subst}
use operating_system_lab_pro.Kernel.Proc.{Proc}
use operating_system_lab_pro.Kernel.UserMemory.{UserMemory}
use operating_system_lab_pro.Kernel.Family.{
  is_child, freeproc, is_zombie, scan, Round, returned, sleeps, asleep, round,
}

module _ (wanted : Proc → Bool) (me : ℕ) where
  -- A child that the caller asks for.
  abbrev pub mine : Proc → Bool
  mine p = is_child me p && wanted p

  -- Such a child that has exited.
  abbrev pub due : Proc → Bool
  due p = mine p && is_zombie p.state

  -- Process `j` of the table is the first that is due.
  pub record IsFirstDue (ps : List Proc) (j : ℕ) (child : Proc) : Type 0 where
    pub at : get_elem? ps j ≡ some child
    pub is_due : due child ≡ true
    pub first : (k : ℕ) (p : Proc) → k < j → get_elem? ps k ≡ some p → due p ≡ false

  abbrev pub NoneDue : List Proc → Type 0
  NoneDue ps = (k : ℕ) (p : Proc) → get_elem? ps k ≡ some p → due p ≡ false

  abbrev pub NoneMine : List Proc → Type 0
  NoneMine ps = (k : ℕ) (p : Proc) → get_elem? ps k ≡ some p → mine p ≡ false

  abbrev pub SomeMine : List Proc → Type 0
  SomeMine ps = (k : ℕ) × (p : Proc) × (get_elem? ps k ≡ some p) × (mine p ≡ true)

  data ScanCase (i : ℕ) (kids : Bool) (ps : List Proc) (r : Option (ℕ × Proc) × Bool) : Type 0 where
    hit :
        (d : ℕ) (p : Proc) → r ≡ (some (i + d, p), true) → IsFirstDue ps d p → ScanCase i kids ps r
    miss : r ≡ (none, true) → NoneDue ps → (kids ≡ true) ⊎ SomeMine ps → ScanCase i kids ps r
    alone : r ≡ (none, false) → kids ≡ false → NoneMine ps → ScanCase i kids ps r

  NoneDue-cons : (p : Proc) (ps : List Proc) → due p ≡ false → NoneDue ps → NoneDue (p ∷ ps)
  NoneDue-cons p ps e h zero q at = ground (arith, e)
  NoneDue-cons p ps e h (suc k) q at = h k q at

  NoneMine-cons : (p : Proc) (ps : List Proc) → mine p ≡ false → NoneMine ps → NoneMine (p ∷ ps)
  NoneMine-cons p ps e h zero q at = ground (arith, e)
  NoneMine-cons p ps e h (suc k) q at = h k q at

  NoneDue-NoneMine : (ps : List Proc) → NoneMine ps → NoneDue ps
  NoneDue-NoneMine ps h k p at = ground (arith, h k p at)

  first_here : (p : Proc) (ps : List Proc) → due p ≡ true → IsFirstDue (p ∷ ps) 0 p
  first_here p ps e = record { at = refl; is_due = e; first = λ k q lt at. absurd (omega arith) }

  first_there :
      (p : Proc) (ps : List Proc) (d : ℕ) (q : Proc)
      → due p ≡ false
      → IsFirstDue ps d q
      → IsFirstDue (p ∷ ps) (suc d) q
  first_there p ps d q e f = record { at = f.at; is_due = f.is_due; first = earlier }
    where
      earlier : (k : ℕ) (o : Proc) → k < suc d → get_elem? (p ∷ ps) k ≡ some o → due o ≡ false
      earlier zero o lt at = ground (arith, e)
      earlier (suc k) o lt at = f.first k o (omega arith) at

  some_mine :
      (p : Proc) (ps : List Proc) (kids : Bool)
      → ((if mine p then true else kids) ≡ true) ⊎ SomeMine ps
      → (kids ≡ true) ⊎ SomeMine (p ∷ ps)
  some_mine p ps kids (inl e) = elim (Bool-cases (mine p)) [
    | inl yes! ↦ inr (0, p, refl, yes!)
    | inr no! ↦ inl (ground arith)
  ]
  some_mine p ps kids (inr (k, q, at, m)) = inr (suc k, q, at, m)

  -- Past a process that is not due, which may be a child.
  past :
      (p : Proc) (ps : List Proc) (i : ℕ) (kids : Bool) {r : Option (ℕ × Proc) × Bool}
      → due p ≡ false
      → ScanCase (i + 1) (if mine p then true else kids) ps r
      → ScanCase i kids (p ∷ ps) r
  past p ps i kids e (hit d q t f) =
      hit (suc d) q (t ∙ ap (λ n. (some (n, q), true)) (omega arith)) (first_there p ps d q e f)
  past p ps i kids e (miss t n h) = miss t (NoneDue-cons p ps e n) (some_mine p ps kids h)
  past p ps i kids e (alone t h n) = alone t (ground arith) (NoneMine-cons p ps (ground arith) n)

  scan_hit :
      (p : Proc) (ps : List Proc) (i : ℕ) (kids : Bool)
      → due p ≡ true
      → scan wanted me i kids (p ∷ ps) ≡ (some (i, p), true)
  unfolding scan
  scan_hit p ps i kids e = ground arith

  scan_past :
      (p : Proc) (ps : List Proc) (i : ℕ) (kids : Bool)
      → due p ≡ false
      → scan wanted me i kids (p ∷ ps) ≡ scan wanted me (i + 1) (if mine p then true else kids) ps
  unfolding scan
  scan_past p ps i kids e = ground arith

  scan_cases :
      (ps : List Proc) (i : ℕ) (kids : Bool) → ScanCase i kids ps (scan wanted me i kids ps)
  unfolding scan
  scan_cases [] i true = miss refl (λ k p at. absurd (cc)) (inl refl)
  scan_cases [] i false = alone refl refl (λ k p at. absurd (cc))
  scan_cases (p ∷ ps) i kids = elim (Bool-cases (due p)) [
    | inl e ↦
        hit 0 p (scan_hit p ps i kids e ∙ ap (λ n. (some (n, p), true)) (omega arith))
          (first_here p ps e)
    | inr e ↦
        subst (ScanCase i kids (p ∷ ps)) (sym (scan_past p ps i kids e))
          (past p ps i kids e (scan_cases ps (i + 1) (if mine p then true else kids)))
  ]

module _ (um : UserMemory) (status_bytes : ℤ → List ℕ) where
  open um use {Mem, copyout}

  -- The outcomes of a round of `me`, which is `p`.
  pub data Ends (wanted : Proc → Bool) (m : Mem) (me : ℕ) (p : Proc) (addr : ℕ) (ps : List Proc)
      (r : Round Mem) : Type 0 where
    -- The first child that is due is freed and its `pid` returned; its status goes to a non-null address.
    reaped :
        (j : ℕ) (child : Proc) (m' : Mem)
        → IsFirstDue wanted me ps j child
        → ((addr ≡ 0) × (m' ≡ m))
          ⊎ ((addr ≢ 0) × (copyout m addr (status_bytes child.xstate) ≡ (m', true)))
        → r ≡ returned m' (set ps j (freeproc child)) child.pid
        → Ends wanted m me p addr ps r
    -- The status cannot be written: the child stays.
    bad_address :
        (j : ℕ) (child : Proc) (m' : Mem)
        → IsFirstDue wanted me ps j child
        → addr ≢ 0
        → copyout m addr (status_bytes child.xstate) ≡ (m', false)
        → r ≡ returned m' ps minus_one
        → Ends wanted m me p addr ps r
    -- No child is due, and there is none to wait for or the caller was killed.
    gives_up :
        NoneDue wanted me ps
        → NoneMine wanted me ps ⊎ (p.killed ≡ true)
        → r ≡ returned m ps minus_one
        → Ends wanted m me p addr ps r
    -- No child is due, but there is one to wait for.
    waits :
        NoneDue wanted me ps
        → SomeMine wanted me ps
        → p.killed ≡ false
        → r ≡ sleeps (set ps me (asleep me p))
        → Ends wanted m me p addr ps r

  module _ (wanted : Proc → Bool) (m : Mem) (me : ℕ) (p : Proc) (addr : ℕ) (ps : List Proc) where
    abbrev result : Round Mem
    result = round um status_bytes wanted m me p addr ps

    hit-Ends :
        (j : ℕ) (child : Proc)
        → scan wanted me 0 false ps ≡ (some (j, child), true)
        → IsFirstDue wanted me ps j child
        → Ends wanted m me p addr ps result
    unfolding round
    hit-Ends j child e f = elim (ℕ_discrete addr 0) [
      | yes null ↦ reaped j child m f (inl (null, refl)) (ground arith)
      | no some! ↦ elim (Bool-cases (copyout m addr (status_bytes child.xstate)).1) [
        | inl ok ↦
            let m' = (copyout m addr (status_bytes child.xstate)).0 in
            reaped j child m' f (inr (some!, ap (λ b. (m', b)) ok)) (ground arith)
        | inr bad ↦
            let m' = (copyout m addr (status_bytes child.xstate)).0 in
            bad_address j child m' f some! (ap (λ b. (m', b)) bad) (ground arith)
      ]
    ]

    scan-Ends :
        ScanCase wanted me 0 false ps (scan wanted me 0 false ps)
        → Ends wanted m me p addr ps result
    unfolding round
    scan-Ends (hit d child e f) =
        hit-Ends d child (e ∙ ap (λ n. (some (n, child), true)) (omega arith)) f
    scan-Ends (miss e n (inl h)) = absurd (cc)
    scan-Ends (miss e n (inr h)) = elim (Bool-cases p.killed) [
      | inl k ↦ gives_up n (inr k) (ground arith)
      | inr k ↦ waits n h k (ground arith)
    ]
    scan-Ends (alone e h n) = gives_up (NoneDue-NoneMine wanted me ps n) (inl n) (ground arith)

    -- A round of `kwait` (where every child is wanted) or of `kjoin` (where the one with the thread's
    -- `pid` is) frees the first wanted zombie child and returns its `pid`, with its status copied out if
    -- the address is not null; it returns -1 and frees nobody if the copy fails, and also, with no such
    -- zombie, if there is no wanted child or the caller was killed; else the caller goes to sleep.
    pub round-Ends : Ends wanted m me p addr ps result
    round-Ends = scan-Ends (scan_cases wanted me ps 0 false)
