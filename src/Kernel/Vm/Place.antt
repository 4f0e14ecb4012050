-- ===== src/Kernel/Vm/Place.antt =====
-- A page of the kernel's that gets mapped in an address space.
use operating_system_lab_pro.Prelude.{
  ℕ, ◌+◌, ◌*◌, ◌/◌, ◌%◌, ◌<◌, ◌≡◌, refl, true, ◌&&◌, ◌==◌, Option, none, some, leb, if◌then◌else◌,
  arith, All-imp, Bool-cases, inl, inr,
}
use operating_system_lab_pro.Kernel.Page.{page_size, Ram}
use operating_system_lab_pro.Kernel.Vm.{maxva, px2, px1, px0, set_pte}
use operating_system_lab_pro.Kernel.Vm.Region.{Perm, leaf_pte}
use operating_system_lab_pro.Kernel.Vm.Own.{
  Owner, unowned, kernel, low, frame, last_table, lookup, seen,
}
use operating_system_lab_pro.Kernel.Vm.Store.{given, stored-IsOwned, lookup-stored}
use operating_system_lab_pro.Kernel.Vm.Memory.{
  Preserves, Preserves-trans, IsMemory, given-IsMemory, given-Preserves,
}

-- Addresses of one page have one entry.
pub lookup_page : (r va va' : ℕ) (m : Ram) → va' / 4096 ≡ va / 4096 → lookup r va' m ≡ lookup r va m
unfolding lookup last_table
lookup_page r va va' m same =
    let lem2 : px2 va' ≡ px2 va = omega (arith, same) in
    let lem1 : px1 va' ≡ px1 va = omega (arith, same) in
    let lem0 : px0 va' ≡ px0 va = omega (arith, same) in ground (arith, lem2, lem1, lem0)

module _ (kernel_end : ℕ) (group : ℕ → ℕ) (root : ℕ → Option ℕ) (own : ℕ → Owner) (m : Ram)
    (h : IsMemory kernel_end group root own m) (s r va p t0 : ℕ) (perm : Perm)
    (kernels : own p ≡ kernel) (small : va < maxva) (start : root s ≡ some r)
    (at : last_table r va m ≡ some t0) (o0 : own t0 ≡ low s (px2 va * 512 + px1 va))
    (fresh : lookup r va m ≡ none) (zeros : (o : ℕ) → m.bytes p o ≡ 0) where
  abbrev pub placed_own : ℕ → Owner
  placed_own = given own p (frame (group s) (va / 4096))

  abbrev pub placed : Ram
  placed = set_pte m t0 (px0 va) (leaf_pte p perm)

  given_memory : IsMemory kernel_end group root placed_own m
  given_memory =
      given-IsMemory kernel_end group root own m h p (frame (group s) (va / 4096)) m
        (ground (arith, kernels)) (λ e. refl) (λ q i ne. refl)
        (All-imp (λ q. own q ≡ unowned) (λ q. placed_own q ≡ unowned) m.freelist
          (λ q o. ground (arith, o, kernels)) h.owned.free)
        h.owned.distinct h.ram

  given_kept : Preserves root own m placed_own m
  given_kept =
      given-Preserves kernel_end group root own m h p (frame (group s) (va / 4096)) m
        (ground (arith, kernels)) (λ e. refl) (λ q i ne. refl) (λ q i ne. refl)

  o0' : placed_own t0 ≡ low s (px2 va * 512 + px1 va)
  o0' = ground (arith, o0, kernels)

  target : true && perm.u ≡ true → placed_own p ≡ frame (group s) (va / 4096)
  target e = ground arith

  pub placed-IsMemory : IsMemory kernel_end group root placed_own placed
  placed-IsMemory = record {
    owned =
        stored-IsOwned group root placed_own m given_memory.owned s r va t0 (leaf_pte p perm) small
          start at o0' target;
    ram = h.ram;
  }

  placed_lookups :
      (s' r' va' : ℕ)
      → root s' ≡ some r'
      → va' < maxva
      → lookup r' va' placed
        ≡ (if s' == s && va' / 4096 == va / 4096 then some (leaf_pte p perm) else lookup r' va' m)
  placed_lookups =
      lookup-stored group root placed_own m given_memory.owned s r va t0 (leaf_pte p perm) small
        start at o0' target

  pub lookup-placed : lookup r va placed ≡ some (leaf_pte p perm)
  lookup-placed = ground (arith, placed_lookups s r va start small)

  seen-placed : (s' r' va' : ℕ) → root s' ≡ some r' → seen r' va' placed ≡ seen r' va' m
  unfolding seen
  seen-placed s' r' va' start' = elim (Bool-cases (leb maxva va')) [
    | inl out ↦ ground (arith, out)
    | inr within ↦ ground (
      arith,
      within,
      placed_lookups s' r' va' start' (ground (arith, within)),
      start,
      start',
      fresh,
      lookup_page r va va' m,
      zeros (va' % page_size),
    )
  ]

  pub placed-Preserves : Preserves root own m placed_own placed
  placed-Preserves = Preserves-trans root own m placed_own m placed_own placed given_kept (record {
    owners = λ q u. refl;
    contents = λ q o u. refl;
    lookups = λ s' r' va' e start' small' found. ground (
      arith,
      placed_lookups s' r' va' start' small',
      found,
      start,
      start',
      fresh,
      lookup_page r va va' m,
    );
    sees = seen-placed;
  })
