-- ===== src/Kernel/Vm/Memory.antt =====
-- Memory in order, and what the operations on user memory keep of it.
use operating_system_lab_pro.Prelude.{
  ℕ, ◌*◌, ◌%◌, ◌<◌, ◌≡◌, ◌≢◌, refl, sym, ap, ◌∙◌, Bool, true, false, not, ◌||◌, List, ◌∷◌, Option,
  some, ltb, leb, arith, All, All-imp, All-zip, Option-cases, Bool-cases, inl, inr,
}
use mathlib.Core.Path.{subst}
use operating_system_lab_pro.Kernel.Page.{page_size, phystop, Pte, Ram, fill, kalloc, kfree}
use operating_system_lab_pro.Kernel.Vm.{maxva}
use operating_system_lab_pro.Kernel.Vm.Own.{
  Owner, unowned, kernel, holds, is_owned, is_used, Distinct, IsOwned, lookup, seen, lookup_owner,
}
use operating_system_lab_pro.Kernel.Vm.Grow.{Extends}
use operating_system_lab_pro.Kernel.Vm.Store.{given, given-IsOwned, lookup-given, given_owner}

-- A page that `kfree` takes.
abbrev pub in_ram : (kernel_end p : ℕ) → Bool
in_ram kernel_end p = not (ltb (p * page_size) kernel_end || leb phystop (p * page_size))

-- The owners, bytes and mappings of what the address spaces use stay.
pub record Preserves (root : ℕ → Option ℕ) (own : ℕ → Owner) (m : Ram) (own' : ℕ → Owner) (m' : Ram)
    : Type 0 where
  pub owners : (p : ℕ) → is_used (own p) ≡ true → own' p ≡ own p
  pub contents : (p o : ℕ) → is_used (own p) ≡ true → m'.bytes p o ≡ m.bytes p o
  pub lookups :
      (s r va : ℕ) (e : Pte)
      → root s ≡ some r
      → va < maxva
      → lookup r va m ≡ some e
      → lookup r va m' ≡ some e
  pub sees : (s r va : ℕ) → root s ≡ some r → seen r va m' ≡ seen r va m

pub Preserves-refl : (root : ℕ → Option ℕ) (own : ℕ → Owner) (m : Ram) → Preserves root own m own m
Preserves-refl root own m = record {
  owners = λ p u. refl;
  contents = λ p o u. refl;
  lookups = λ s r va e start small at. at;
  sees = λ s r va start. refl;
}

pub Preserves-trans :
    (root : ℕ → Option ℕ) (own : ℕ → Owner) (m : Ram) (own1 : ℕ → Owner) (m1 : Ram)
    (own2 : ℕ → Owner) (m2 : Ram)
    → Preserves root own m own1 m1
    → Preserves root own1 m1 own2 m2
    → Preserves root own m own2 m2
Preserves-trans root own m own1 m1 own2 m2 f g =
    let still : (p : ℕ) → is_used (own p) ≡ true → is_used (own1 p) ≡ true =
      λ p u. ap is_used (f.owners p u) ∙ u in
    record {
      owners = λ p u. g.owners p (still p u) ∙ f.owners p u;
      contents = λ p o u. g.contents p o (still p u) ∙ f.contents p o u;
      lookups = λ s r va e start small at.
          g.lookups s r va e start small (f.lookups s r va e start small at);
      sees = λ s r va start. g.sees s r va start ∙ f.sees s r va start;
    }

-- A process sees the same when its mapping and the bytes of its pages stay.
seen_lem :
    (group : ℕ → ℕ) (root : ℕ → Option ℕ) (own : ℕ → Owner) (m m' : Ram)
    (h : IsOwned group root own m) (s r va : ℕ)
    → root s ≡ some r
    → lookup r va m' ≡ lookup r va m
    → ((p o : ℕ) → is_used (own p) ≡ true → m'.bytes p o ≡ m.bytes p o)
    → seen r va m' ≡ seen r va m
unfolding seen
seen_lem group root own m m' h s r va start same bytes = elim (Bool-cases (leb maxva va)) [
  | inl out ↦ ground (arith, out)
  | inr within ↦ elim (Option-cases (lookup r va m)) [
    | inl none_lem ↦ ground (arith, within, same, none_lem)
    | inr (e, at) ↦ elim (Bool-cases e.u) [
      | inr kernel_only ↦ ground (arith, within, same, at, kernel_only)
      | inl user ↦
          let owner =
            lookup_owner group root own m h s r va e start (ground (arith, within)) at user in
          ground (arith, within, same, at, user, bytes e.ppn (va % page_size) (ap is_used owner))
    ]
  ]
]

pub Extends-Preserves :
    (group : ℕ → ℕ) (root : ℕ → Option ℕ) (own : ℕ → Owner) (m : Ram) (own' : ℕ → Owner) (m' : Ram)
    (h : IsOwned group root own m)
    → Extends root own m own' m'
    → Preserves root own m own' m'
Extends-Preserves group root own m own' m' h x =
    let used : (p : ℕ) → is_used (own p) ≡ true → is_owned (own p) ≡ true =
      λ p u. ground (arith, u) in
    record {
      owners = λ p u. x.owners p (used p u);
      contents = λ p o u. x.contents p o (used p u);
      lookups = λ s r va e start small at. x.lookups s r va start ∙ at;
      sees = λ s r va start.
          seen_lem group root own m m' h s r va start (x.lookups s r va start)
            (λ p o u. x.contents p o (used p u));
    }

module _ (kernel_end : ℕ) (group : ℕ → ℕ) (root : ℕ → Option ℕ) where
  pub record IsMemory (own : ℕ → Owner) (m : Ram) : Type 0 where
    pub owned : IsOwned group root own m
    pub ram : All (λ p. in_ram kernel_end p ≡ true) m.freelist

  module _ (own : ℕ → Owner) (m : Ram) (h : IsMemory own m) where
    -- A page with a new owner, in memory `m'` that may differ on that page.
    module _ (p : ℕ) (o : Owner) (m' : Ram) (loose : is_used (own p) ≡ false)
        (calm : (e : Pte) → holds o e ≡ false)
        (ptes : (q i : ℕ) → q ≢ p → m'.ptes q i ≡ m.ptes q i) where
      pub given-IsMemory :
          All (λ q. given own p o q ≡ unowned) m'.freelist
          → Distinct m'.freelist
          → All (λ q. in_ram kernel_end q ≡ true) m'.freelist
          → IsMemory (given own p o) m'
      given-IsMemory all distinct ram = record {
        owned = given-IsOwned group root own m h.owned p o m' loose calm ptes all distinct;
        ram = ram;
      }

      still :
          (q i : ℕ)
          → is_used (own q) ≡ true
          → ((q i : ℕ) → q ≢ p → m'.bytes q i ≡ m.bytes q i)
          → m'.bytes q i ≡ m.bytes q i
      still q i u bytes = bytes q i (λ e. ground (arith, u, loose, e))

      pub given-Preserves :
          ((q i : ℕ) → q ≢ p → m'.bytes q i ≡ m.bytes q i) → Preserves root own m (given own p o) m'
      given-Preserves bytes = record {
        owners = λ q u. given_owner group root own m h.owned p o m' loose calm ptes q u;
        contents = λ q i u. still q i u bytes;
        lookups = λ s r va e start small at.
            lookup-given group root own m h.owned p o m' loose calm ptes s r va start ∙ at;
        sees = λ s r va start.
            seen_lem group root own m m' h.owned s r va start
              (lookup-given group root own m h.owned p o m' loose calm ptes s r va start)
              (λ q i u. still q i u bytes);
      }

    -- Page `p` comes off the free list, and is the kernel's for now.
    module _ (p : ℕ) (rest : List ℕ) (list : m.freelist ≡ p ∷ rest) where
      pub kalloc_eq : kalloc m ≡ (some p, fill (record m { freelist = rest }) p 5)
      unfolding kalloc
      kalloc_eq = ground (arith, list)

      free_lem : All (λ q. own q ≡ unowned) (p ∷ rest)
      free_lem = subst (λ l. All (λ q. own q ≡ unowned) l) list h.owned.free

      distinct_lem : Distinct (p ∷ rest)
      distinct_lem = subst Distinct list h.owned.distinct

      pub p_ram : All (λ q. in_ram kernel_end q ≡ true) (p ∷ rest)
      p_ram = subst (λ l. All (λ q. in_ram kernel_end q ≡ true) l) list h.ram

      pub loose_lem : is_used (own p) ≡ false
      loose_lem = ground (arith, free_lem.0)

      module _ (m' : Ram) (same : m'.freelist ≡ rest)
          (ptes : (q i : ℕ) → q ≢ p → m'.ptes q i ≡ m.ptes q i) where
        still_free : All (λ q. given own p kernel q ≡ unowned) rest
        still_free =
            All-zip (λ q. own q ≡ unowned) (λ y. p ≢ y) (λ q. given own p kernel q ≡ unowned) rest
              (λ q o ne. ground (arith, o, ne)) free_lem.1 distinct_lem.0

        pub taken-IsMemory : IsMemory (given own p kernel) m'
        taken-IsMemory =
            given-IsMemory p kernel m' loose_lem (λ e. refl) ptes
              (subst (λ l. All (λ q. given own p kernel q ≡ unowned) l) (sym same) still_free)
              (subst Distinct (sym same) distinct_lem.1)
              (subst (λ l. All (λ q. in_ram kernel_end q ≡ true) l) (sym same) p_ram.1)

        pub taken-Preserves :
            ((q i : ℕ) → q ≢ p → m'.bytes q i ≡ m.bytes q i)
            → Preserves root own m (given own p kernel) m'
        taken-Preserves = given-Preserves p kernel m' loose_lem (λ e. refl) ptes

        pub taken-lookup : (s r va : ℕ) → root s ≡ some r → lookup r va m' ≡ lookup r va m
        taken-lookup = lookup-given group root own m h.owned p kernel m' loose_lem (λ e. refl) ptes

    -- `kfree` of a page that the kernel has.
    module _ (p : ℕ) (kernels : own p ≡ kernel) (good : in_ram kernel_end p ≡ true) where
      abbrev pub freed : Ram
      freed = record (fill m p 1) { freelist = p ∷ m.freelist }

      pub kfree_eq : kfree kernel_end p m ≡ some freed
      unfolding kfree
      kfree_eq = ground (arith, good)

      pub freed-IsMemory : IsMemory (given own p unowned) freed
      freed-IsMemory =
          given-IsMemory p unowned freed (ground (arith, kernels)) (λ e. refl)
            (λ q i ne. ground (arith, ne))
            (
              ground arith,
              All-imp (λ q. own q ≡ unowned) (λ q. given own p unowned q ≡ unowned) m.freelist
                  (λ q o. ground (arith, o)) h.owned.free,
            )
            (
              All-imp (λ q. own q ≡ unowned) (λ q. p ≢ q) m.freelist
                  (λ q o e. ground (arith, o, kernels, e)) h.owned.free,
              h.owned.distinct,
            )
            (good, h.ram)

      pub freed-Preserves : Preserves root own m (given own p unowned) freed
      freed-Preserves =
          given-Preserves p unowned freed (ground (arith, kernels)) (λ e. refl)
            (λ q i ne. ground (arith, ne)) (λ q i ne. ground (arith, ne))
