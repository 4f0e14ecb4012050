-- ===== src/Kernel/Vm/Space.antt =====
-- kernel/vm.c, whole address spaces: `uvmcopy` and `uvmshare`, and `freewalk`, `uvmfree` and `uvmclear`.
use operating_system_lab_pro.Prelude.{
  ℕ, zero, suc, ◌+◌, ◌-◌, ◌/◌, Bool, true, false, not, ◌&&◌, ◌||◌, Option, none, some, ◌==◌,
  if◌then◌else◌,
}
use operating_system_lab_pro.Kernel.Page.{page_size, zero_pte, Ram, kalloc, kfree}
use operating_system_lab_pro.Kernel.Vm.{pg_up, set_pte, walk}
use operating_system_lab_pro.Kernel.Vm.Region.{flags, mappages, uvmunmap}

-- `memmove(mem, pa, PGSIZE)`
abbrev pub copy_page : Ram → (mem pa : ℕ) → Ram
copy_page m mem pa = record m {
  ptes = λ p i. if p == mem then m.ptes pa i else m.ptes p i;
  bytes = λ p o. if p == mem then m.bytes pa o else m.bytes p o;
}

-- `*pte &= ~PTE_U`; not to be mapped is a panic.
unfoldable pub uvmclear : (root va : ℕ) → Ram → Option Ram
unfolding walk
uvmclear root va m = elim (walk false root va m) [
  | none ↦ none
  | some (none, m') ↦ none
  | some (some (t, i), m') ↦ some (set_pte m' t i (record (m'.ptes t i) { u = false }))
]

-- The body of the loop of `uvmshare` for the page at `va`: whether it went on.
unfoldable pub share_page : (old new va : ℕ) → Ram → Option (Bool × Ram)
unfolding walk mappages
share_page old new va m = elim (walk false old va m) [
  | none ↦ none
  | some (none, m') ↦ some (true, m')
  | some (some (t, i), m') ↦
      let e = m'.ptes t i in
      if not e.v then some (true, m') else mappages new va page_size e.ppn (flags e) m'
]

module _ (kernel_end : ℕ) where
  -- The same for `uvmcopy`.
  unfoldable pub dup_page : (old new va : ℕ) → Ram → Option (Bool × Ram)
  unfolding walk kalloc kfree mappages
  dup_page old new va m = elim (walk false old va m) [
    | none ↦ none
    | some (none, m') ↦ some (true, m')
    | some (some (t, i), m') ↦
        let e = m'.ptes t i in
        if not e.v then some (true, m') else elim (kalloc m').0 [
          | none ↦ some (false, (kalloc m').1)
          | some mem ↦
              elim (mappages new va page_size mem (flags e) (copy_page (kalloc m').1 mem e.ppn)) [
                | none ↦ none
                | some (true, m'') ↦ some (true, m'')
                | some (false, m'') ↦ elim (kfree kernel_end mem m'') [
                  | none ↦ none
                  | some m3 ↦ some (false, m3)
                ]
              ]
        ]
  ]

  -- The loop of either, `k` pages from `va` on; at a failure the pages so far are unmapped.
  unfoldable pub each_page :
      (body : (va : ℕ) → Ram → Option (Bool × Ram)) (do_free : Bool) (new k va : ℕ)
      → Ram
      → Option (Bool × Ram)
  unfolding uvmunmap
  each_page body do_free new zero va m = some (true, m)
  each_page body do_free new (suc k) va m = elim (body va m) [
    | none ↦ none
    | some (true, m') ↦ each_page body do_free new k (va + page_size) m'
    | some (false, m') ↦ elim (uvmunmap kernel_end do_free new 0 (va / page_size) m') [
      | none ↦ none
      | some m'' ↦ some (false, m'')
    ]
  ]

  unfoldable pub uvmcopy : (old new sz : ℕ) → Ram → Option (Bool × Ram)
  unfolding dup_page each_page
  uvmcopy old new sz m = each_page (dup_page old new) true new (pg_up sz / page_size) 0 m

  unfoldable pub uvmshare : (old new sz : ℕ) → Ram → Option (Bool × Ram)
  unfolding share_page each_page
  uvmshare old new sz m = each_page (share_page old new) false new (pg_up sz / page_size) 0 m

  -- The loop of `freewalk` over the last `k` entries of a table; `below` frees the next level.
  unfoldable pub free_entries : (below : ℕ → Ram → Option Ram) (k table : ℕ) → Ram → Option Ram
  free_entries below zero table m = some m
  free_entries below (suc k) table m =
      let e = m.ptes table (511 - k) in
      elim (e.v && not (e.r || e.w || e.x)) [
        | true ↦ elim (below e.ppn m) [
          | none ↦ none
          | some m' ↦ free_entries below k table (set_pte m' table (511 - k) zero_pte)
        ]
        | false ↦ elim e.v [ true ↦ none | false ↦ free_entries below k table m ]
      ]

  -- `levels` levels of tables; a table page below the last is a panic here.
  unfoldable pub freewalk : (levels table : ℕ) → Ram → Option Ram
  unfolding free_entries kfree
  freewalk zero table m = none
  freewalk (suc levels) table m = elim (free_entries (freewalk levels) 512 table m) [
    | none ↦ none
    | some m' ↦ kfree kernel_end table m'
  ]

  unfoldable pub uvmfree : (root sz : ℕ) → Ram → Option Ram
  unfolding uvmunmap freewalk
  uvmfree root sz m =
      if sz == 0
      then freewalk 3 root m
      else elim (uvmunmap kernel_end true root 0 (pg_up sz / page_size) m) [
        | none ↦ none
        | some m' ↦ freewalk 3 root m'
      ]
