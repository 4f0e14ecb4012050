-- ===== src/Kernel/Vm/Own.antt =====
-- What each page of memory is for, and that page tables respect it.
use operating_system_lab_pro.Prelude.{
  ℕ, ◌+◌, ◌*◌, ◌/◌, ◌%◌, ◌<◌, ◌≡◌, ◌≢◌, refl, sym, ap, ◌∙◌, Bool, true, false, ◌&&◌, List, [], ◌∷◌,
  Option, none, some, leb, if◌then◌else◌, arith, All, Bool-cases, inl, inr,
}
use operating_system_lab_pro.Kernel.Page.{page_size, Pte, Ram}
use operating_system_lab_pro.Kernel.Vm.{maxva, px2, px1, px0, step_down, walk_from, walkaddr}

-- A page is free or the kernel's, a table of address space `s`, or a page of user memory. A table is
-- known by the addresses that it serves: those of the upper bits `a` or `b`; a page of user memory by its
-- number in the address spaces of the group `g`, which share it.
pub data Owner : Type 0 where
  unowned : Owner
  kernel : Owner
  top : (s : ℕ) → Owner
  mid : (s a : ℕ) → Owner
  low : (s b : ℕ) → Owner
  frame : (g c : ℕ) → Owner

-- An entry that a table of this owner follows: for the last level, one for user memory.
abbrev pub holds : Owner → Pte → Bool
holds (top s) e = e.v
holds (mid s a) e = e.v
holds (low s b) e = e.v && e.u
holds unowned e = false
holds kernel e = false
holds (frame g c) e = false

abbrev pub is_owned : Owner → Bool
is_owned unowned = false
is_owned kernel = true
is_owned (top s) = true
is_owned (mid s a) = true
is_owned (low s b) = true
is_owned (frame g c) = true

-- A page that an address space uses.
abbrev pub is_used : Owner → Bool
is_used unowned = false
is_used kernel = false
is_used (top s) = true
is_used (mid s a) = true
is_used (low s b) = true
is_used (frame g c) = true

-- No number stands twice.
abbrev pub Distinct : List ℕ → Type 0
Distinct [] = Unit
Distinct (x ∷ xs) = All (λ y. x ≢ y) xs × Distinct xs

-- The threads of a process have address spaces of their own, of one group.
module _ (group : ℕ → ℕ) where
  -- What entry `i` of a table points to.
  abbrev pub child : Owner → (i : ℕ) → Owner
  child (top s) i = mid s i
  child (mid s a) i = low s (a * 512 + i)
  child (low s b) i = frame (group s) (b * 512 + i)
  child unowned i = unowned
  child kernel i = unowned
  child (frame g c) i = unowned

  -- `root` says where the tables of the address spaces start.
  pub record IsOwned (root : ℕ → Option ℕ) (own : ℕ → Owner) (m : Ram) : Type 0 where
    pub free : All (λ p. own p ≡ unowned) m.freelist
    pub distinct : Distinct m.freelist
    pub roots : (s p : ℕ) → root s ≡ some p → own p ≡ top s
    pub points :
        (t i : ℕ) → holds (own t) (m.ptes t i) ≡ true → own (m.ptes t i).ppn ≡ child (own t) i

-- The table that entry `i` of a table leads to.
abbrev pub next : Ram → (t i : ℕ) → Option ℕ
next m t i = if (m.ptes t i).v then some (m.ptes t i).ppn else none

-- The valid entry in entry `i` of a table.
abbrev pub valid : Ram → (t i : ℕ) → Option Pte
valid m t i = if (m.ptes t i).v then some (m.ptes t i) else none

-- The table of the last level, and the entry, for an address.
unfoldable pub last_table : (root va : ℕ) → Ram → Option ℕ
last_table root va m = elim (next m root (px2 va)) [ none ↦ none | some t1 ↦ next m t1 (px1 va) ]

unfoldable pub lookup : (root va : ℕ) → Ram → Option Pte
unfolding last_table
lookup root va m = elim (last_table root va m) [ none ↦ none | some t0 ↦ valid m t0 (px0 va) ]

-- The byte that a process sees at `va`: a page that is not there yet will be all zeros.
unfoldable pub seen : (root va : ℕ) → Ram → ℕ
unfolding lookup
seen root va m = if leb maxva va then 0 else elim (lookup root va m) [
  | none ↦ 0
  | some e ↦ if e.u then m.bytes e.ppn (va % page_size) else 0
]

pub walk_from_lookup :
    (root va : ℕ) (m : Ram)
    → walk_from false root va m
      ≡ (elim (last_table root va m) [ none ↦ none | some t0 ↦ some (t0, px0 va) ], m)
unfolding walk_from step_down last_table
walk_from_lookup root va m = ground arith

pub walkaddr-lookup :
    (root va : ℕ) (m : Ram)
    → walkaddr root va m ≡ (
        if leb maxva va
        then none
        else elim (lookup root va m) [ none ↦ none | some e ↦ if e.u then some e.ppn else none ])
unfolding walkaddr lookup
walkaddr-lookup root va m = ground (arith, walk_from_lookup root va m)

-- How far a walk in address space `s`, whose root is `r`, comes.
pub data Walked (own : ℕ → Owner) (m : Ram) (s r va : ℕ) : Type 0 where
  no_mid : own r ≡ top s → (m.ptes r (px2 va)).v ≡ false → Walked own m s r va
  no_low :
      (t1 : ℕ)
      → own r ≡ top s
      → (m.ptes r (px2 va)).v ≡ true
      → (m.ptes r (px2 va)).ppn ≡ t1
      → own t1 ≡ mid s (px2 va)
      → (m.ptes t1 (px1 va)).v ≡ false
      → Walked own m s r va
  arrives :
      (t1 t0 : ℕ)
      → own r ≡ top s
      → (m.ptes r (px2 va)).v ≡ true
      → (m.ptes r (px2 va)).ppn ≡ t1
      → own t1 ≡ mid s (px2 va)
      → (m.ptes t1 (px1 va)).v ≡ true
      → (m.ptes t1 (px1 va)).ppn ≡ t0
      → own t0 ≡ low s (px2 va * 512 + px1 va)
      → Walked own m s r va

module _ (group : ℕ → ℕ) (root : ℕ → Option ℕ) (own : ℕ → Owner) (m : Ram)
    (h : IsOwned group root own m) where
  points_top : (t i s : ℕ) → own t ≡ top s → (m.ptes t i).v ≡ true → own (m.ptes t i).ppn ≡ mid s i
  points_top t i s o e = ground (arith, h.points t i, o, e)

  points_mid :
      (t i s a : ℕ)
      → own t ≡ mid s a
      → (m.ptes t i).v ≡ true
      → own (m.ptes t i).ppn ≡ low s (a * 512 + i)
  points_mid t i s a o e = ground (arith, h.points t i, o, e)

  pub walked : (s r va : ℕ) → root s ≡ some r → Walked own m s r va
  walked s r va e =
      let o2 = h.roots s r e in
      elim (Bool-cases (m.ptes r (px2 va)).v) [
        | inr none2 ↦ no_mid o2 none2
        | inl some2 ↦
            let t1 = (m.ptes r (px2 va)).ppn in
            let o1 = points_top r (px2 va) s o2 some2 in
            elim (Bool-cases (m.ptes t1 (px1 va)).v) [
              | inr none1 ↦ no_low t1 o2 some2 refl o1 none1
              | inl some1 ↦
                  arrives t1 (m.ptes t1 (px1 va)).ppn o2 some2 refl o1 some1 refl
                    (points_mid t1 (px1 va) s (px2 va) o1 some1)
            ]
      ]

  pub lookup_owner :
      (s r va : ℕ) (e : Pte)
      → root s ≡ some r
      → va < maxva
      → lookup r va m ≡ some e
      → e.u ≡ true
      → own e.ppn ≡ frame (group s) (va / 4096)
  unfolding lookup last_table
  lookup_owner s r va e start small at user = elim (walked s r va start) [
    | no_mid o2 n2 ↦ absurd (ground (arith, at, n2))
    | no_low t1 o2 e2 p2 o1 n1 ↦ absurd (ground (arith, at, e2, p2, n1))
    | arrives t1 t0 o2 e2 p2 o1 e1 p1 o0 ↦
        let number : (px2 va * 512 + px1 va) * 512 + px0 va ≡ va / 4096 = omega (arith, small) in
        let entry : m.ptes t0 (px0 va) ≡ e = ground (arith, at, e2, p2, e1, p1) in
        let both : holds (own t0) (m.ptes t0 (px0 va)) ≡ true =
          ground (arith, at, e2, p2, e1, p1, o0, user) in
        let goal = h.points t0 (px0 va) both in
        ap (λ x. own x.ppn) (sym entry)
        ∙ goal
        ∙ ap (λ o. child group o (px0 va)) o0
        ∙ ap (frame (group s)) number
  ]
