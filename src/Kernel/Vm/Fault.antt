-- ===== src/Kernel/Vm/Fault.antt =====
-- The page of a user address, found or made by `vmfault`.
use operating_system_lab_pro.Prelude.{
  ℕ, ◌/◌, ◌%◌, ◌<◌, ◌≤◌, ◌≡◌, ◌⊎◌, refl, true, false, Option, none, some, leb, arith, Option-cases,
  Bool-cases, inl, inr,
}
use operating_system_lab_pro.Kernel.Page.{page_size, Pte, Ram}
use operating_system_lab_pro.Kernel.Vm.{maxva, pg_down, walk, walkaddr}
use operating_system_lab_pro.Kernel.Vm.Region.{leaf_pte, ismapped, map_zeros}
use operating_system_lab_pro.Kernel.Vm.User.{user_rw, vmfault, user_page}
use operating_system_lab_pro.Kernel.Vm.Own.{
  Owner, frame, lookup, walk_from_lookup, walkaddr-lookup, lookup_owner,
}
use operating_system_lab_pro.Kernel.Vm.Memory.{Preserves, Preserves-refl, IsMemory}
use operating_system_lab_pro.Kernel.Vm.Zeros.{Zeroed, mapped, refused, map_zeros-Zeroed}

ismapped-lookup :
    (r va : ℕ) (m : Ram)
    → va < maxva
    → ismapped r va m ≡ some (elim (lookup r va m) [ none ↦ false | some e ↦ true ])
unfolding ismapped walk lookup
ismapped-lookup r va m small = ground (arith, small, walk_from_lookup r va m)

module _ (kernel_end : ℕ) (group : ℕ → ℕ) (root : ℕ → Option ℕ) (own : ℕ → Owner) (m : Ram)
    (h : IsMemory kernel_end group root own m) (s r sz va0 : ℕ) where
  -- A page of the group's, which the process may use, or none.
  pub data Faulted (result : Option (Option ℕ × Ram)) : Type 0 where
    found :
        (page : ℕ) (m' : Ram) (own' : ℕ → Owner) (e : Pte)
        → result ≡ some (some page, m')
        → IsMemory kernel_end group root own' m'
        → Preserves root own m own' m'
        → va0 < maxva
        → lookup r va0 m' ≡ some e
        → e.u ≡ true
        → e.ppn ≡ page
        → own' page ≡ frame (group s) (va0 / page_size)
        → Faulted result
    nothing :
        (m' : Ram) (own' : ℕ → Owner)
        → result ≡ some (none, m')
        → IsMemory kernel_end group root own' m'
        → Preserves root own m own' m'
        → ((e : Pte) → va0 < maxva → lookup r va0 m ≡ some e → e.u ≡ false)
        → Faulted result

  module _ (aligned : va0 % page_size ≡ 0) (small : sz ≤ maxva) (start : root s ≡ some r) where
    zeroed :
        lookup r va0 m ≡ none
        → va0 < maxva
        → Zeroed kernel_end group root own m h s r va0 user_rw
            (map_zeros kernel_end r va0 user_rw m)
    zeroed fresh low =
        map_zeros-Zeroed kernel_end group root own m h s r va0 user_rw aligned low start fresh

    down_lem : pg_down va0 ≡ va0
    down_lem = omega (arith, aligned)

    past : leb sz va0 ≡ true → vmfault kernel_end r sz va0 m ≡ some (none, m)
    unfolding vmfault
    past e = ground (arith, e)

    there :
        (e : Pte)
        → lookup r va0 m ≡ some e
        → va0 < maxva
        → vmfault kernel_end r sz va0 m ≡ some (none, m)
    unfolding vmfault
    there e at low = ground (arith, at, down_lem, ismapped-lookup r va0 m low)

    missing :
        lookup r va0 m ≡ none
        → va0 < sz
        → vmfault kernel_end r sz va0 m ≡ map_zeros kernel_end r va0 user_rw m
    unfolding vmfault
    missing at low =
        ground (arith, at, low, down_lem, ismapped-lookup r va0 m (omega (arith, low, small)))

    refuses :
        walkaddr r va0 m ≡ none → (e : Pte) → va0 < maxva → lookup r va0 m ≡ some e → e.u ≡ false
    refuses absent e low at = ground (arith, absent, low, at, walkaddr-lookup r va0 m)

    faults :
        walkaddr r va0 m ≡ none
        → (lookup r va0 m ≡ none) ⊎ ((e : Pte) × (lookup r va0 m ≡ some e))
        → Faulted (user_page kernel_end r sz va0 m)
    unfolding user_page
    faults absent entry = elim (Bool-cases (leb sz va0)) [
      | inl out ↦
          nothing m own (ground (arith, absent, past out)) h (Preserves-refl root own m)
            (refuses absent)
      | inr within ↦
          let low : va0 < sz = ground (arith, within) in
          elim entry [
            | inr (e, at) ↦
                nothing m own (ground (arith, absent, there e at (omega (arith, low, small)))) h
                  (Preserves-refl root own m) (refuses absent)
            | inl at ↦ elim (zeroed at (omega (arith, low, small))) [
              | mapped mem m' own' e good kept now owner zeros ↦
                  found mem m' own' (leaf_pte mem user_rw)
                    (ground (arith, absent, missing at low, e)) good kept
                    (omega (arith, low, small)) now refl refl owner
              | refused m' own' e good kept ↦
                  nothing m' own' (ground (arith, absent, missing at low, e)) good kept
                    (refuses absent)
            ]
          ]
    ]

    pub user_page-Faulted : Faulted (user_page kernel_end r sz va0 m)
    unfolding user_page
    user_page-Faulted = elim (Bool-cases (leb maxva va0)) [
      | inl out ↦
          nothing m own
            (ground (arith, out, walkaddr-lookup r va0 m, past (ground (arith, out, small)))) h
            (Preserves-refl root own m) (λ e low at. absurd (ground (arith, out, low)))
      | inr within ↦ elim (Option-cases (lookup r va0 m)) [
        | inl at ↦ faults (ground (arith, within, at, walkaddr-lookup r va0 m)) (inl at)
        | inr (e, at) ↦ elim (Bool-cases e.u) [
          | inr kernel_only ↦
              faults (ground (arith, within, at, kernel_only, walkaddr-lookup r va0 m))
                (inr (e, at))
          | inl user ↦
              found e.ppn m own e (ground (arith, within, at, user, walkaddr-lookup r va0 m)) h
                (Preserves-refl root own m) (ground (arith, within)) at user refl
                (lookup_owner group root own m h.owned s r va0 e start (ground (arith, within)) at
                  user)
        ]
      ]
    ]
