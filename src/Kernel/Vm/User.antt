-- ===== src/Kernel/Vm/User.antt =====
-- kernel/vm.c, user memory: `vmfault`, `copyout`, `copyin` and `copyinstr`. `sz` is the size of the current
-- process, whose page table `root` is.
use operating_system_lab_pro.Prelude.{
  ℕ, zero, suc, ◌+◌, ◌-◌, Bool, true, false, ◌&&◌, List, [], ◌∷◌, ◌++◌, Option, none, some, ◌==◌,
  ltb, leb, if◌then◌else◌, min, length, take, drop, get_or,
}
use operating_system_lab_pro.Kernel.Page.{page_size, Ram}
use operating_system_lab_pro.Kernel.Vm.{maxva, pg_down, walk_from, walkaddr}
use operating_system_lab_pro.Kernel.Vm.Region.{Perm, ismapped, map_zeros}

-- `memmove` to and from a part of one page.
abbrev pub write_bytes : Ram → (page offset : ℕ) → List ℕ → Ram
write_bytes m page offset src = record m {
  bytes = λ p o.
      if p == page && (leb offset o && ltb o (offset + length src))
      then get_or src (o - offset) 0
      else m.bytes p o;
}

unfoldable pub read_bytes : Ram → (page offset n : ℕ) → List ℕ
read_bytes m page offset zero = []
read_bytes m page offset (suc n) = m.bytes page offset ∷ read_bytes m page (offset + 1) n

-- The bytes before the first NUL of a part of a page, and whether there is one.
unfoldable pub read_str : Ram → (page offset n : ℕ) → List ℕ × Bool
read_str m page offset zero = ([], false)
read_str m page offset (suc n) =
    let (rest, got_null) = read_str m page (offset + 1) n in
    if m.bytes page offset == 0 then ([], true) else (m.bytes page offset ∷ rest, got_null)

-- `PTE_W | PTE_U | PTE_R`
abbrev pub user_rw : Perm
user_rw = record { r = true; w = true; x = false; u = true }

-- `*walk(pagetable, va, 0) & PTE_W`
unfoldable pub writable : (root va : ℕ) → Ram → Bool
unfolding walk_from
writable root va m = elim (walk_from false root va m).0 [
  | none ↦ false
  | some (t, i) ↦ (m.ptes t i).w
]

-- The bytes of the string so far when a page is not mapped, or the string, and whether a NUL was found.
unfoldable pub copyinstr_from : (fuel root srcva max : ℕ) → Ram → List ℕ × Bool
unfolding walkaddr read_str
copyinstr_from zero root srcva max m = ([], false)
copyinstr_from (suc fuel) root srcva max m =
    let va0 = pg_down srcva in
    elim (walkaddr root va0 m) [
      | none ↦ ([], false)
      | some pa0 ↦
          let n = min (page_size - (srcva - va0)) max in
          let (here, got_null) = read_str m pa0 (srcva - va0) n in
          let (rest, got) = copyinstr_from fuel root (va0 + page_size) (max - n) m in
          if got_null
          then (here, true)
          else if max - n == 0
          then (here, false)
          else (here ++ rest, got)
    ]

-- Each round reads a byte or more. The bytes that are written to `dst`, with the NUL left out, and
-- whether it returns 0.
unfoldable pub copyinstr : (root srcva max : ℕ) → Ram → List ℕ × Bool
unfolding copyinstr_from
copyinstr root srcva max m = if max == 0 then ([], false) else copyinstr_from max root srcva max m

module _ (kernel_end : ℕ) where
  unfoldable pub vmfault : (root sz va : ℕ) → Ram → Option (Option ℕ × Ram)
  unfolding ismapped map_zeros
  vmfault root sz va m = if leb sz va then some (none, m) else elim (ismapped root (pg_down va) m) [
    | none ↦ none
    | some true ↦ some (none, m)
    | some false ↦ map_zeros kernel_end root (pg_down va) user_rw m
  ]

  -- `walkaddr`, and `vmfault` if that finds nothing.
  unfoldable pub user_page : (root sz va0 : ℕ) → Ram → Option (Option ℕ × Ram)
  unfolding walkaddr vmfault
  user_page root sz va0 m = elim (walkaddr root va0 m) [
    | some pa0 ↦ some (some pa0, m)
    | none ↦ vmfault root sz va0 m
  ]

  -- The loop of `copyout`; each round writes a byte or more. Whether it returns 0.
  unfoldable pub copyout_from : (fuel root sz dstva : ℕ) → List ℕ → Ram → Option (Ram × Bool)
  unfolding user_page writable
  copyout_from zero root sz dstva src m = some (m, true)
  copyout_from (suc fuel) root sz dstva src m =
      let va0 = pg_down dstva in
      if length src == 0
      then some (m, true)
      else if leb maxva va0
      then some (m, false)
      else elim (user_page root sz va0 m) [
        | none ↦ none
        | some (none, m') ↦ some (m', false)
        | some (some pa0, m') ↦
            let n = min (page_size - (dstva - va0)) (length src) in
            let m'' = write_bytes m' pa0 (dstva - va0) (take n src) in
            let rest = copyout_from fuel root sz (va0 + page_size) (drop n src) m'' in
            if writable root va0 m' then rest else some (m', false)
      ]

  unfoldable pub copyout : (root sz dstva : ℕ) → List ℕ → Ram → Option (Ram × Bool)
  unfolding copyout_from
  copyout root sz dstva src m = copyout_from (length src) root sz dstva src m

  -- The loop of `copyin`; what is written to `dst`, and whether it returns 0.
  unfoldable pub copyin_from : (fuel root sz srcva len : ℕ) → Ram → Option (Ram × List ℕ × Bool)
  unfolding user_page read_bytes
  copyin_from zero root sz srcva len m = some (m, [], true)
  copyin_from (suc fuel) root sz srcva len m =
      let va0 = pg_down srcva in
      if len == 0 then some (m, [], true) else elim (user_page root sz va0 m) [
        | none ↦ none
        | some (none, m') ↦ some (m', [], false)
        | some (some pa0, m') ↦
            let n = min (page_size - (srcva - va0)) len in
            elim (copyin_from fuel root sz (va0 + page_size) (len - n) m') [
              | none ↦ none
              | some (m'', rest, ok) ↦ some (m'', read_bytes m' pa0 (srcva - va0) n ++ rest, ok)
            ]
      ]

  unfoldable pub copyin : (root sz srcva len : ℕ) → Ram → Option (Ram × List ℕ × Bool)
  unfolding copyin_from
  copyin root sz srcva len m = copyin_from len root sz srcva len m
