-- ===== src/Kernel/Vm/Zeros.antt =====
-- A new page of zeros in an address space, as `vmfault` and `uvmalloc` make it.
use operating_system_lab_pro.Prelude.{
  ℕ, ◌+◌, ◌*◌, ◌/◌, ◌%◌, ◌<◌, ◌≡◌, inl, inr, refl, ◌∙◌, true, false, List, [], ◌∷◌, Option, none,
  some, arith, List-cases,
}
use operating_system_lab_pro.Kernel.Page.{page_size, Ram, fill, kalloc}
use operating_system_lab_pro.Kernel.Vm.{maxva, px2, px1, px0, set_pte, walk, walk_from}
use operating_system_lab_pro.Kernel.Vm.Region.{
  Perm, leaf_pte, map_page, map_from, mappages, map_zeros,
}
use operating_system_lab_pro.Kernel.Vm.Own.{
  Owner, unowned, kernel, low, frame, IsOwned, last_table, lookup,
}
use operating_system_lab_pro.Kernel.Vm.Grow.{Extends, Reaches, walk_from-Reaches}
use operating_system_lab_pro.Kernel.Vm.Store.{given}
use operating_system_lab_pro.Kernel.Vm.Place.{
  placed_own, placed, placed-IsMemory, placed-Preserves, lookup-placed,
}
use operating_system_lab_pro.Kernel.Vm.Memory.{
  in_ram, Preserves, Preserves-refl, Preserves-trans, Extends-Preserves, IsMemory, kalloc_eq, p_ram,
  taken-IsMemory, taken-Preserves, taken-lookup, freed, kfree_eq, freed-IsMemory, freed-Preserves,
}

-- `mappages` for one page.
module _ (r va page : ℕ) (perm : Perm) (m : Ram) (aligned : va % page_size ≡ 0)
    (small : va < maxva) where
  no_table :
      (m' : Ram)
      → walk_from true r va m ≡ (none, m')
      → mappages r va page_size page perm m ≡ some (false, m')
  unfolding mappages map_from map_page walk
  no_table m' e = ground (arith, e, aligned, small)

  one_page :
      (m' : Ram) (t i : ℕ)
      → walk_from true r va m ≡ (some (t, i), m')
      → (m'.ptes t i).v ≡ false
      → mappages r va page_size page perm m ≡ some (true, set_pte m' t i (leaf_pte page perm))
  unfolding mappages map_from map_page walk
  one_page m' t i e empty = ground (arith, e, empty, aligned, small)

module _ (kernel_end : ℕ) (group : ℕ → ℕ) (root : ℕ → Option ℕ) (own : ℕ → Owner) (m : Ram)
    (h : IsMemory kernel_end group root own m) (s r va : ℕ) (perm : Perm) where
  -- What comes of it: a page, all zeros, which is mapped now, or none; all else stays.
  pub data Zeroed (result : Option (Option ℕ × Ram)) : Type 0 where
    mapped :
        (mem : ℕ) (m' : Ram) (own' : ℕ → Owner)
        → result ≡ some (some mem, m')
        → IsMemory kernel_end group root own' m'
        → Preserves root own m own' m'
        → lookup r va m' ≡ some (leaf_pte mem perm)
        → own' mem ≡ frame (group s) (va / page_size)
        → ((o : ℕ) → m'.bytes mem o ≡ 0)
        → Zeroed result
    refused :
        (m' : Ram) (own' : ℕ → Owner)
        → result ≡ some (none, m')
        → IsMemory kernel_end group root own' m'
        → Preserves root own m own' m'
        → Zeroed result

  module _ (aligned : va % page_size ≡ 0) (small : va < maxva) (start : root s ≡ some r)
      (fresh : lookup r va m ≡ none) where
    module _ (p : ℕ) (rest : List ℕ) (list : m.freelist ≡ p ∷ rest) where
      abbrev m1 : Ram
      m1 = fill (fill (record m { freelist = rest }) p 5) p 0

      abbrev own1 : ℕ → Owner
      own1 = given own p kernel

      memory1 : IsMemory kernel_end group root own1 m1
      memory1 =
          taken-IsMemory kernel_end group root own m h p rest list m1 refl
            (λ q i ne. ground (arith, ne))

      kept1 : Preserves root own m own1 m1
      kept1 =
          taken-Preserves kernel_end group root own m h p rest list m1 refl
            (λ q i ne. ground (arith, ne)) (λ q i ne. ground (arith, ne))

      fresh1 : lookup r va m1 ≡ none
      fresh1 =
          taken-lookup kernel_end group root own m h p rest list m1 refl
            (λ q i ne. ground (arith, ne)) s r va start
          ∙ fresh

      walked1 : Reaches group root own1 m1 s r va (walk_from true r va m1)
      walked1 = walk_from-Reaches group root own1 m1 memory1.owned s r va start

      module _ (m2 : Ram) (own2 : ℕ → Owner) (owned2 : IsOwned group root own2 m2)
          (x : Extends root own1 m1 own2 m2) where
        kernel2 : own2 p ≡ kernel
        kernel2 = let o : own1 p ≡ kernel = ground arith in x.owners p (ground (arith, o)) ∙ o

        memory2 : IsMemory kernel_end group root own2 m2
        memory2 = record { owned = owned2; ram = x.frees (in_ram kernel_end) memory1.ram }

        kept2 : Preserves root own m own2 m2
        kept2 =
            Preserves-trans root own m own1 m1 own2 m2 kept1
              (Extends-Preserves group root own1 m1 own2 m2 memory1.owned x)

        good : in_ram kernel_end p ≡ true
        good = (p_ram kernel_end group root own m h p rest list).0

        gives_back :
            mappages r va page_size p perm m1 ≡ some (false, m2)
            → Zeroed (map_zeros kernel_end r va perm m)
        unfolding map_zeros
        gives_back e =
            refused (freed kernel_end group root own2 m2 memory2 p kernel2 good)
              (given own2 p unowned)
              (ground (
                arith,
                kalloc_eq kernel_end group root own m h p rest list,
                e,
                kfree_eq kernel_end group root own2 m2 memory2 p kernel2 good,
              ))
              (freed-IsMemory kernel_end group root own2 m2 memory2 p kernel2 good)
              (Preserves-trans root own m own2 m2 (given own2 p unowned)
                (freed kernel_end group root own2 m2 memory2 p kernel2 good) kept2
                (freed-Preserves kernel_end group root own2 m2 memory2 p kernel2 good))

        module _ (t0 : ℕ) (o0 : own2 t0 ≡ low s (px2 va * 512 + px1 va))
            (at : last_table r va m2 ≡ some t0) where
          fresh2 : lookup r va m2 ≡ none
          fresh2 = x.lookups s r va start ∙ fresh1

          empty2 : (m2.ptes t0 (px0 va)).v ≡ false
          unfolding lookup
          empty2 = ground (arith, fresh2, at)

          zeros2 : (o : ℕ) → m2.bytes p o ≡ 0
          zeros2 o =
              let owner : own1 p ≡ kernel = ground arith in
              let here : m1.bytes p o ≡ 0 = ground arith in
              x.contents p o (ground (arith, owner)) ∙ here

          maps :
              mappages r va page_size p perm m1
                ≡ some (true, set_pte m2 t0 (px0 va) (leaf_pte p perm))
              → Zeroed (map_zeros kernel_end r va perm m)
          unfolding map_zeros
          maps e =
              mapped p
                (placed kernel_end group root own2 m2 memory2 s r va p t0 perm kernel2 small start
                  at o0 fresh2 zeros2)
                (placed_own kernel_end group root own2 m2 memory2 s r va p t0 perm kernel2 small
                  start at o0 fresh2 zeros2)
                (ground (arith, kalloc_eq kernel_end group root own m h p rest list, e))
                (placed-IsMemory kernel_end group root own2 m2 memory2 s r va p t0 perm kernel2
                  small start at o0 fresh2 zeros2)
                (Preserves-trans root own m own2 m2
                  (placed_own kernel_end group root own2 m2 memory2 s r va p t0 perm kernel2 small
                    start at o0 fresh2 zeros2)
                  (placed kernel_end group root own2 m2 memory2 s r va p t0 perm kernel2 small start
                    at o0 fresh2 zeros2)
                  kept2
                  (placed-Preserves kernel_end group root own2 m2 memory2 s r va p t0 perm kernel2
                    small start at o0 fresh2 zeros2))
                (lookup-placed kernel_end group root own2 m2 memory2 s r va p t0 perm kernel2 small
                  start at o0 fresh2 zeros2)
                (ground arith) zeros2

      some_page : Zeroed (map_zeros kernel_end r va perm m)
      some_page =
          let w = walk_from true r va m1 in
          let m2 = w.1 in
          let x = walked1.extends in
          elim walked1.reached [
            | inl none_lem ↦
                gives_back m2 walked1.own' walked1.owned x
                  (no_table r va p perm m1 aligned small m2 (ground (arith, none_lem)))
            | inr (t0, e, o0, at) ↦ maps m2 walked1.own' walked1.owned x t0 o0 at (
                one_page r va p perm m1 aligned small m2 t0 (px0 va) (ground (arith, e))
                  (empty2 m2 walked1.own' walked1.owned x t0 o0 at))
          ]

    no_page : m.freelist ≡ [] → Zeroed (map_zeros kernel_end r va perm m)
    unfolding map_zeros kalloc
    no_page list = refused m own (ground (arith, list)) h (Preserves-refl root own m)

    pub map_zeros-Zeroed : Zeroed (map_zeros kernel_end r va perm m)
    map_zeros-Zeroed = elim (List-cases m.freelist) [
      | inl list ↦ no_page list
      | inr (p, rest, list) ↦ some_page p rest list
    ]
