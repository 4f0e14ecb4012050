-- ===== src/Kernel/Vm/Grow.antt =====
-- A walk that allocates tables changes no mapping.
use operating_system_lab_pro.Prelude.{
  ℕ, ◌+◌, ◌*◌, ◌≡◌, ◌≢◌, ◌⊎◌, refl, sym, ap, ◌∙◌, Bool, true, false, List, [], ◌∷◌, Option, none,
  some, ◌==◌, if◌then◌else◌, arith, All, All-zip, Bool-cases, inl, inr,
}
use mathlib.Core.Path.{subst}
use operating_system_lab_pro.Kernel.Page.{Pte, zero_pte, decode, word_of, Ram, fill, kalloc}
use operating_system_lab_pro.Kernel.Vm.{px2, px1, px0, set_pte, table_pte, step_down, walk_from}
use operating_system_lab_pro.Kernel.Vm.Own.{
  Owner, unowned, kernel, top, mid, low, frame, holds, is_owned, Distinct, child, IsOwned, next,
  last_table, lookup, no_mid, no_low, arrives, walked,
}

abbrev pub is_dir : Owner → Bool
is_dir (top s) = true
is_dir (mid s a) = true
is_dir (low s b) = false
is_dir unowned = false
is_dir kernel = false
is_dir (frame g c) = false

-- Entry `i` of table `t` points to the new table `p`.
abbrev pub grown : Ram → (rest : List ℕ) (t i p : ℕ) → Ram
grown m rest t i p = set_pte (fill (fill (record m { freelist = rest }) p 5) p 0) t i (table_pte p)

zero_lem : decode (word_of 0) ≡ zero_pte
unfolding decode
zero_lem = refl

owned_dir : (o : Owner) → is_dir o ≡ true → is_owned o ≡ true
owned_dir o e = ground (arith, e)

-- What a change of memory keeps: the owners of the pages in use, the bytes on them, and all mappings.
pub record Extends (root : ℕ → Option ℕ) (own : ℕ → Owner) (m : Ram) (own' : ℕ → Owner) (m' : Ram)
    : Type 0 where
  pub owners : (p : ℕ) → is_owned (own p) ≡ true → own' p ≡ own p
  pub entries : (t i : ℕ) → is_dir (own t) ≡ true → (m.ptes t i).v ≡ true → m'.ptes t i ≡ m.ptes t i
  pub contents : (p o : ℕ) → is_owned (own p) ≡ true → m'.bytes p o ≡ m.bytes p o
  pub lookups : (s r va : ℕ) → root s ≡ some r → lookup r va m' ≡ lookup r va m
  pub frees : (P : ℕ → Bool) → All (λ p. P p ≡ true) m.freelist → All (λ p. P p ≡ true) m'.freelist

pub Extends-refl : (root : ℕ → Option ℕ) (own : ℕ → Owner) (m : Ram) → Extends root own m own m
Extends-refl root own m = record {
  owners = λ p o. refl;
  entries = λ t i d e. refl;
  contents = λ p o e. refl;
  lookups = λ s r va e. refl;
  frees = λ P a. a;
}

pub Extends-trans :
    (root : ℕ → Option ℕ) (own : ℕ → Owner) (m : Ram) (own1 : ℕ → Owner) (m1 : Ram)
    (own2 : ℕ → Owner) (m2 : Ram)
    → Extends root own m own1 m1
    → Extends root own1 m1 own2 m2
    → Extends root own m own2 m2
Extends-trans root own m own1 m1 own2 m2 f g =
    let still : (p : ℕ) → is_owned (own p) ≡ true → is_owned (own1 p) ≡ true =
      λ p o. ap is_owned (f.owners p o) ∙ o in
    record {
      owners = λ p o. g.owners p (still p o) ∙ f.owners p o;
      entries = λ t i d e.
          let same = f.entries t i d e in
          let d1 = ap is_dir (f.owners t (owned_dir (own t) d)) ∙ d in
          g.entries t i d1 (ap (λ (x : Pte). x.v) same ∙ e) ∙ same;
      contents = λ p o e. g.contents p o (still p e) ∙ f.contents p o e;
      lookups = λ s r va e. g.lookups s r va e ∙ f.lookups s r va e;
      frees = λ P a. g.frees P (f.frees P a);
    }

module _ (group : ℕ → ℕ) (root : ℕ → Option ℕ) (own : ℕ → Owner) (m : Ram)
    (h : IsOwned group root own m) where
  module _ (rest : List ℕ) (t i p : ℕ) (dir : is_dir (own t) ≡ true) (free : own p ≡ unowned)
      (empty : (m.ptes t i).v ≡ false) (list : m.freelist ≡ p ∷ rest) where
    apart : t ≢ p
    apart e = ground (arith, dir, free, e)

    -- An entry of a table that is in use and not the one that changes.
    grown_pte :
        (q k : ℕ)
        → is_owned (own q) ≡ true
        → (m.ptes q k).v ≡ true
        → (grown m rest t i p).ptes q k ≡ m.ptes q k
    grown_pte q k o e = ground (arith, o, e, free, empty)

    lookup-grown : (s r va : ℕ) → root s ≡ some r → lookup r va (grown m rest t i p) ≡ lookup r va m
    unfolding lookup last_table
    lookup-grown s r va e = elim (walked group root own m h s r va e) [
      | no_mid o2 n2 ↦ ground (arith, o2, n2, free, zero_lem)
      | no_low t1 o2 e2 p2 o1 n1 ↦ ground (arith, o2, e2, p2, o1, n1, free, zero_lem)
      | arrives t1 t0 o2 e2 p2 o1 e1 p1 o0 ↦
          ground (arith, o2, e2, p2, o1, e1, p1, o0, free, zero_lem, dir, empty)
    ]

    abbrev pub grown_own : ℕ → Owner
    grown_own q = if q == p then child group (own t) i else own q

    grown_points :
        (q k : ℕ)
        → holds (grown_own q) ((grown m rest t i p).ptes q k) ≡ true
        → grown_own ((grown m rest t i p).ptes q k).ppn ≡ child group (grown_own q) k
    grown_points q k e = ground (arith, e, h.points q k, dir, free, empty, zero_lem)

    grown-IsOwned :
        All (λ q. own q ≡ unowned) rest
        → All (λ y. p ≢ y) rest
        → Distinct rest
        → IsOwned group root grown_own (grown m rest t i p)
    grown-IsOwned all new distinct = record {
      free =
          All-zip (λ q. own q ≡ unowned) (λ y. p ≢ y) (λ q. grown_own q ≡ unowned) rest
            (λ q o ne. ground (arith, o, ne)) all new;
      distinct = distinct;
      roots = λ s r e. let o = h.roots s r e in ground (arith, o, free);
      points = grown_points;
    }

    grown-Extends : Extends root own m grown_own (grown m rest t i p)
    grown-Extends = record {
      owners = λ q o. ground (arith, o, free);
      entries = λ q k d e. grown_pte q k (owned_dir (own q) d) e;
      contents = λ q k o. ground (arith, o, free);
      lookups = lookup-grown;
      frees = λ P a. (subst (λ l. All (λ q. P q ≡ true) l) list a).1;
    }

  -- A step down the tables of address space `s`.
  pub record Down (t i : ℕ) (r : Option ℕ × Ram) : Type 0 where
    pub own' : ℕ → Owner
    pub owned : IsOwned group root own' r.1
    pub extends : Extends root own m own' r.1
    pub reached :
        (r.0 ≡ none)
        ⊎ ((p : ℕ) × (r.0 ≡ some p) × (own' p ≡ child group (own t) i) × (next r.1 t i ≡ some p))

  fresh_step :
      (t i p : ℕ) (rest : List ℕ)
      → m.freelist ≡ p ∷ rest
      → (m.ptes t i).v ≡ false
      → step_down true t i m ≡ (some p, grown m rest t i p)
  unfolding step_down kalloc
  fresh_step t i p rest e empty = ground (arith, e, empty)

  fresh-Down :
      (t i p : ℕ) (rest : List ℕ)
      → is_dir (own t) ≡ true
      → m.freelist ≡ p ∷ rest
      → (m.ptes t i).v ≡ false
      → Down t i (some p, grown m rest t i p)
  fresh-Down t i p rest dir e empty =
      let all = subst (λ l. All (λ q. own q ≡ unowned) l) e h.free in
      let new = subst Distinct e h.distinct in
      record {
        own' = grown_own rest t i p dir all.0 empty e;
        owned = grown-IsOwned rest t i p dir all.0 empty e all.1 new.0 new.1;
        extends = grown-Extends rest t i p dir all.0 empty e;
        reached = inr (p, refl, ground arith, ground arith);
      }

  stays-Down : (t i : ℕ) → Down t i (none, m)
  stays-Down t i = record {
    own' = own;
    owned = h;
    extends = Extends-refl root own m;
    reached = inl refl;
  }

  there-Down :
      (t i : ℕ)
      → is_dir (own t) ≡ true
      → (m.ptes t i).v ≡ true
      → Down t i (some (m.ptes t i).ppn, m)
  there-Down t i dir e = record {
    own' = own;
    owned = h;
    extends = Extends-refl root own m;
    reached = inr ((m.ptes t i).ppn, refl, ground (arith, h.points t i, dir, e), ground (arith, e));
  }

  full_step :
      (t i : ℕ) → m.freelist ≡ [] → (m.ptes t i).v ≡ false → step_down true t i m ≡ (none, m)
  unfolding step_down kalloc
  full_step t i e empty = ground (arith, e, empty)

  there_step :
      (alloc : Bool) (t i : ℕ)
      → (m.ptes t i).v ≡ true
      → step_down alloc t i m ≡ (some (m.ptes t i).ppn, m)
  unfolding step_down
  there_step alloc t i e = ground (arith, e)

  empty_step :
      (t i : ℕ)
      → (m.ptes t i).v ≡ false
      → (l : List ℕ) → m.freelist ≡ l
      → is_dir (own t) ≡ true
      → Down t i (step_down true t i m)
  empty_step t i empty [] e dir = subst (Down t i) (sym (full_step t i e empty)) (stays-Down t i)
  empty_step t i empty (p ∷ rest) e dir =
      subst (Down t i) (sym (fresh_step t i p rest e empty)) (fresh-Down t i p rest dir e empty)

  pub step_down-Down : (t i : ℕ) → is_dir (own t) ≡ true → Down t i (step_down true t i m)
  step_down-Down t i dir = elim (Bool-cases (m.ptes t i).v) [
    | inl e ↦ subst (Down t i) (sym (there_step true t i e)) (there-Down t i dir e)
    | inr empty ↦ empty_step t i empty m.freelist refl dir
  ]

module _ (alloc : Bool) (r va : ℕ) (m : Ram) where
  -- Memory after the first step.
  abbrev first : Ram
  first = (step_down alloc r (px2 va) m).1

  walk_none : (step_down alloc r (px2 va) m).0 ≡ none → walk_from alloc r va m ≡ (none, first)
  unfolding walk_from
  walk_none e = ground (arith, e)

  walk_part :
      (t1 : ℕ)
      → (step_down alloc r (px2 va) m).0 ≡ some t1
      → (step_down alloc t1 (px1 va) first).0 ≡ none
      → walk_from alloc r va m ≡ (none, (step_down alloc t1 (px1 va) first).1)
  unfolding walk_from
  walk_part t1 e e' = ground (arith, e, e')

  walk_all :
      (t1 t0 : ℕ)
      → (step_down alloc r (px2 va) m).0 ≡ some t1
      → (step_down alloc t1 (px1 va) first).0 ≡ some t0
      → walk_from alloc r va m ≡ (some (t0, px0 va), (step_down alloc t1 (px1 va) first).1)
  unfolding walk_from
  walk_all t1 t0 e e' = ground (arith, e, e')

next_valid : (m : Ram) (t i p : ℕ) → next m t i ≡ some p → (m.ptes t i).v ≡ true
next_valid m t i p e = ground (arith, e)

module _ (group : ℕ → ℕ) (root : ℕ → Option ℕ) where
  -- A walk with allocation in address space `s`, from `m`.
  pub record Reaches (own : ℕ → Owner) (m : Ram) (s r va : ℕ) (w : Option (ℕ × ℕ) × Ram)
      : Type 0 where
    pub own' : ℕ → Owner
    pub owned : IsOwned group root own' w.1
    pub extends : Extends root own m own' w.1
    pub reached :
        (w.0 ≡ none)
        ⊎ ((t0 : ℕ) × (w.0 ≡ some (t0, px0 va))
            × (own' t0 ≡ low s (px2 va * 512 + px1 va))
            × (last_table r va w.1 ≡ some t0))

  pub walk_from-Reaches :
      (own : ℕ → Owner) (m : Ram) (h : IsOwned group root own m) (s r va : ℕ)
      → root s ≡ some r
      → Reaches own m s r va (walk_from true r va m)
  unfolding last_table
  walk_from-Reaches own m h s r va e =
      let o2 = h.roots s r e in
      let m1 = (step_down true r (px2 va) m).1 in
      let d = step_down-Down group root own m h r (px2 va) (ground (arith, o2)) in
      elim d.reached [
        | inl none1 ↦
            subst (Reaches own m s r va) (sym (walk_none true r va m none1))
              (record { own' = d.own'; owned = d.owned; extends = d.extends; reached = inl refl })
        | inr (t1, e1, o1, n1) ↦
            let o1' : d.own' t1 ≡ mid s (px2 va) = o1 ∙ ap (λ o. child group o (px2 va)) o2 in
            let m0 = (step_down true t1 (px1 va) m1).1 in
            let d0 =
              step_down-Down group root d.own' m1 d.owned t1 (px1 va) (ground (arith, o1')) in
            let both = Extends-trans root own m d.own' m1 d0.own' m0 d.extends d0.extends in
            elim d0.reached [
              | inl none0 ↦
                  subst (Reaches own m s r va) (sym (walk_part true r va m t1 e1 none0)) (record {
                    own' = d0.own';
                    owned = d0.owned;
                    extends = both;
                    reached = inl refl;
                  })
              | inr (t0, e0, o0, n0) ↦
                  let still : d.own' r ≡ top s = d.extends.owners r (ground (arith, o2)) ∙ o2 in
                  let same =
                    d0.extends.entries r (px2 va) (ground (arith, still))
                      (next_valid m1 r (px2 va) t1 n1) in
                  subst (Reaches own m s r va) (sym (walk_all true r va m t1 t0 e1 e0)) (record {
                    own' = d0.own';
                    owned = d0.owned;
                    extends = both;
                    reached = inr (
                      t0,
                      refl,
                      o0 ∙ ap (λ o. child group o (px1 va)) o1',
                      ground (arith, same, n1, n0),
                    );
                  })
            ]
      ]
