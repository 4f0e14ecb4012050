-- ===== src/Kernel/Vm/Store.antt =====
-- A page that is taken from the free list, and an entry of a last table that is set.
use operating_system_lab_pro.Prelude.{
  ℕ, ◌+◌, ◌*◌, ◌/◌, ◌<◌, ◌≡◌, ◌≢◌, ◌⊎◌, sym, ap, ◌∙◌, true, false, ◌&&◌, Option, none, some, ◌==◌,
  if◌then◌else◌, arith, All, ℕ_discrete, inl, inr,
}
use operating_system_lab_pro.Kernel.Page.{Pte, Ram}
use operating_system_lab_pro.Kernel.Vm.{maxva, px2, px1, px0, set_pte}
use operating_system_lab_pro.Kernel.Vm.Own.{
  Owner, unowned, low, frame, holds, is_used, Distinct, child, IsOwned, last_table, lookup, no_mid,
  no_low, arrives, walked,
}

abbrev pub given : (own : ℕ → Owner) → (p : ℕ) → Owner → ℕ → Owner
given own p o q = if q == p then o else own q

apart_lem :
    (s s' va va' : ℕ)
    → va < maxva
    → va' < maxva
    → (s' ≢ s) ⊎ (va' / 4096 ≢ va / 4096)
    → low s' (px2 va' * 512 + px1 va') ≡ low s (px2 va * 512 + px1 va)
    → px0 va' ≢ px0 va
apart_lem s s' va va' small small' other o ep =
    let same_space : s' ≡ s = ground (arith, o) in
    let same_bits : px2 va' * 512 + px1 va' ≡ px2 va * 512 + px1 va = ground (arith, o) in
    let same_number : va' / 4096 ≡ va / 4096 = omega (arith, same_bits, ep, small, small') in
    ground (arith, other, same_space, same_number)

module _ (group : ℕ → ℕ) (root : ℕ → Option ℕ) (own : ℕ → Owner) (m : Ram)
    (h : IsOwned group root own m) where
  -- Page `p`, which no address space uses, gets the owner `o` and the bytes and entries of `m'`; `o` is no
  -- table.
  module _ (p : ℕ) (o : Owner) (m' : Ram) (loose : is_used (own p) ≡ false)
      (calm : (e : Pte) → holds o e ≡ false)
      (ptes : (q i : ℕ) → q ≢ p → m'.ptes q i ≡ m.ptes q i) where
    -- The owners from then on.
    abbrev here : ℕ → Owner
    here = given own p o

    used_ne : (q : ℕ) → is_used (own q) ≡ true → q ≢ p
    used_ne q u e = ground (arith, u, loose, e)

    pub given-IsOwned :
        All (λ q. given own p o q ≡ unowned) m'.freelist
        → Distinct m'.freelist
        → IsOwned group root (given own p o) m'
    given-IsOwned all distinct = record {
      free = all;
      distinct = distinct;
      roots = λ s r e. let top_lem = h.roots s r e in ground (arith, top_lem, loose);
      points = λ t i e. elim (ℕ_discrete t p) [
        | yes same ↦ absurd (ground (arith, e, same, calm (m'.ptes t i)))
        | no ne ↦ ground (arith, e, h.points t i, ptes t i ne, ne, loose)
      ];
    }

    pub lookup-given : (s r va : ℕ) → root s ≡ some r → lookup r va m' ≡ lookup r va m
    unfolding lookup last_table
    lookup-given s r va e = elim (walked group root own m h s r va e) [
      | no_mid o2 n2 ↦ ground (arith, o2, n2, ptes r (px2 va) (used_ne r (ground (arith, o2))))
      | no_low t1 o2 e2 p2 o1 n1 ↦ ground (
        arith,
        o2,
        e2,
        p2,
        o1,
        n1,
        ptes r (px2 va) (used_ne r (ground (arith, o2))),
        ptes t1 (px1 va) (used_ne t1 (ground (arith, o1))),
      )
      | arrives t1 t0 o2 e2 p2 o1 e1 p1 o0 ↦ ground (
        arith,
        o2,
        e2,
        p2,
        o1,
        e1,
        p1,
        o0,
        ptes r (px2 va) (used_ne r (ground (arith, o2))),
        ptes t1 (px1 va) (used_ne t1 (ground (arith, o1))),
        ptes t0 (px0 va) (used_ne t0 (ground (arith, o0))),
      )
    ]

    pub given_owner : (q : ℕ) → is_used (own q) ≡ true → given own p o q ≡ own q
    given_owner q u = ground (arith, used_ne q u)

  -- Entry `e` for `va` in address space `s`.
  module _ (s r va t0 : ℕ) (e : Pte) (small : va < maxva) (start : root s ≡ some r)
      (at : last_table r va m ≡ some t0) (o0 : own t0 ≡ low s (px2 va * 512 + px1 va))
      (target : e.v && e.u ≡ true → own e.ppn ≡ frame (group s) (va / 4096)) where
    abbrev pub stored : Ram
    stored = set_pte m t0 (px0 va) e

    page_number : (px2 va * 512 + px1 va) * 512 + px0 va ≡ va / 4096
    page_number = omega (arith, small)

    stored_points :
        (t i : ℕ)
        → holds (own t) (stored.ptes t i) ≡ true
        → own (stored.ptes t i).ppn ≡ child group (own t) i
    stored_points t i ok = elim (ℕ_discrete t t0) [
      | no ne ↦ ground (arith, ok, h.points t i, ne)
      | yes et ↦ elim (ℕ_discrete i (px0 va)) [
        | no ne ↦ ground (arith, ok, h.points t i, ne)
        | yes ei ↦
            let owner : own t ≡ low s (px2 va * 512 + px1 va) = ap own et ∙ o0 in
            let entry : stored.ptes t i ≡ e = ground (arith, et, ei) in
            let flags : e.v && e.u ≡ true = ground (arith, ok, owner, entry) in
            let goal : own e.ppn ≡ child group (low s (px2 va * 512 + px1 va)) (px0 va) =
              target flags ∙ ap (frame (group s)) (sym page_number) in
            ground (arith, goal, owner, entry, ei)
      ]
    ]

    pub stored-IsOwned : IsOwned group root own stored
    stored-IsOwned = record {
      free = h.free;
      distinct = h.distinct;
      roots = h.roots;
      points = stored_points;
    }

    pub last_table-stored :
        (s' r' va' : ℕ) → root s' ≡ some r' → last_table r' va' stored ≡ last_table r' va' m
    unfolding last_table
    last_table-stored s' r' va' start' = elim (walked group root own m h s' r' va' start') [
      | no_mid o2 n2 ↦ ground (arith, o2, n2, o0)
      | no_low t1 o2 e2 p2 o1 n1 ↦ ground (arith, o2, e2, p2, o1, n1, o0)
      | arrives t1 t0' o2 e2 p2 o1 e1 p1 o0' ↦ ground (arith, o2, e2, p2, o1, e1, p1, o0)
    ]

    lookup_at : lookup r va stored ≡ (if e.v then some e else none)
    unfolding lookup
    lookup_at = ground (arith, last_table-stored s r va start, at)

    same_page :
        (r' va' : ℕ)
        → root s ≡ some r'
        → va' / 4096 ≡ va / 4096
        → lookup r' va' stored ≡ lookup r va stored
    unfolding lookup last_table
    same_page r' va' start' same =
        let root_lem : r' ≡ r = ground (arith, start, start') in
        let lem2 : px2 va' ≡ px2 va = omega (arith, same) in
        let lem1 : px1 va' ≡ px1 va = omega (arith, same) in
        let lem0 : px0 va' ≡ px0 va = omega (arith, same) in
        ground (arith, root_lem, lem2, lem1, lem0)

    other_page :
        (s' r' va' : ℕ)
        → root s' ≡ some r'
        → va' < maxva
        → (s' ≢ s) ⊎ (va' / 4096 ≢ va / 4096)
        → lookup r' va' stored ≡ lookup r' va' m
    unfolding lookup last_table
    other_page s' r' va' start' small' other = elim (walked group root own m h s' r' va' start') [
      | no_mid o2 n2 ↦ ground (arith, o2, n2, o0)
      | no_low t1 o2 e2 p2 o1 n1 ↦ ground (arith, o2, e2, p2, o1, n1, o0)
      | arrives t1 t0' o2 e2 p2 o1 e1 p1 o0' ↦
          let apart : (t0' ≢ t0) ⊎ (px0 va' ≢ px0 va) = elim (ℕ_discrete t0' t0) [
            | no ne ↦ inl ne
            | yes et ↦
                inr (λ ep. apart_lem s s' va va' small small' other (sym o0' ∙ ap own et ∙ o0) ep)
          ] in
          ground (arith, o2, e2, p2, o1, e1, p1, o0, apart)
    ]

    pub lookup-stored :
        (s' r' va' : ℕ)
        → root s' ≡ some r'
        → va' < maxva
        → lookup r' va' stored ≡ (
            if s' == s && va' / 4096 == va / 4096
            then if e.v then some e else none
            else lookup r' va' m)
    lookup-stored s' r' va' start' small' = elim (ℕ_discrete s' s) [
      | no ne ↦ ground (arith, ne, other_page s' r' va' start' small' (inl ne))
      | yes es ↦ elim (ℕ_discrete (va' / 4096) (va / 4096)) [
        | no ne ↦ ground (arith, ne, other_page s' r' va' start' small' (inr ne))
        | yes ev ↦
            let start'' : root s ≡ some r' = ap root (sym es) ∙ start' in
            ground (arith, es, ev, same_page r' va' start'' ev, lookup_at)
      ]
    ]
