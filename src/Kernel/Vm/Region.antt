-- ===== src/Kernel/Vm/Region.antt =====
-- kernel/vm.c: mapping, unmapping, allocating, freeing and copying the pages of a region. Sizes in bytes are
-- the source's; the physical address that is mapped is a page, and `perm` the flags R, W, X and U.
use operating_system_lab_pro.Prelude.{
  ℕ, zero, suc, ◌+◌, ◌-◌, ◌/◌, ◌%◌, Bool, true, false, not, ◌||◌, Option, none, some, ◌==◌, ltb,
  leb, if◌then◌else◌,
}
use operating_system_lab_pro.Kernel.Page.{page_size, Pte, zero_pte, Ram, fill, kalloc, kfree}
use operating_system_lab_pro.Kernel.Vm.{pg_up, set_pte, walk}

pub record Perm : Type 0 where
  pub r : Bool
  pub w : Bool
  pub x : Bool
  pub u : Bool

-- `PA2PTE(pa) | perm | PTE_V`
abbrev pub leaf_pte : (page : ℕ) → Perm → Pte
leaf_pte page perm = record { ppn = page; v = true; r = perm.r; w = perm.w; x = perm.x; u = perm.u }

-- `PTE_FLAGS`
abbrev pub flags : Pte → Perm
flags e = record { r = e.r; w = e.w; x = e.x; u = e.u }

-- The body of the loop of `mappages`, and whether it went on.
unfoldable pub map_page : (root va page : ℕ) → Perm → Ram → Option (Bool × Ram)
unfolding walk
map_page root va page perm m = elim (walk true root va m) [
  | none ↦ none
  | some (none, m') ↦ some (false, m')
  | some (some (t, i), m') ↦
      if (m'.ptes t i).v then none else some (true, set_pte m' t i (leaf_pte page perm))
]

-- The loop, `k` pages from `va` on.
unfoldable pub map_from : (k root va page : ℕ) → Perm → Ram → Option (Bool × Ram)
unfolding map_page
map_from zero root va page perm m = some (true, m)
map_from (suc k) root va page perm m = elim (map_page root va page perm m) [
  | none ↦ none
  | some (false, m') ↦ some (false, m')
  | some (true, m') ↦ map_from k root (va + page_size) (page + 1) perm m'
]

unfoldable pub mappages : (root va size page : ℕ) → Perm → Ram → Option (Bool × Ram)
unfolding map_from
mappages root va size page perm m =
    if not (va % page_size == 0) || not (size % page_size == 0) || size == 0
    then none
    else map_from (size / page_size) root va page perm m

unfoldable pub uvmcreate : Ram → Option ℕ × Ram
unfolding kalloc
uvmcreate m = elim (kalloc m).0 [
  | none ↦ (none, (kalloc m).1)
  | some page ↦ (some page, fill (kalloc m).1 page 0)
]

unfoldable pub ismapped : (root va : ℕ) → Ram → Option Bool
unfolding walk
ismapped root va m = elim (walk false root va m) [
  | none ↦ none
  | some (none, m') ↦ some false
  | some (some (t, i), m') ↦ some (m'.ptes t i).v
]

module _ (kernel_end : ℕ) where
  -- The body of the loop of `uvmunmap`.
  unfoldable pub unmap_page : (do_free : Bool) (root va : ℕ) → Ram → Option Ram
  unfolding walk kfree
  unmap_page do_free root va m = elim (walk false root va m) [
    | none ↦ none
    | some (none, m') ↦ some m'
    | some (some (t, i), m') ↦
        let e = m'.ptes t i in
        if not e.v
        then some m'
        else if do_free
        then elim (kfree kernel_end e.ppn m') [
          | none ↦ none
          | some m'' ↦ some (set_pte m'' t i zero_pte)
        ]
        else some (set_pte m' t i zero_pte)
  ]

  -- The loop, `k` pages from `va` on.
  unfoldable pub unmap_from : (k : ℕ) (do_free : Bool) (root va : ℕ) → Ram → Option Ram
  unfolding unmap_page
  unmap_from zero do_free root va m = some m
  unmap_from (suc k) do_free root va m = elim (unmap_page do_free root va m) [
    | none ↦ none
    | some m' ↦ unmap_from k do_free root (va + page_size) m'
  ]

  unfoldable pub uvmunmap : (do_free : Bool) (root va npages : ℕ) → Ram → Option Ram
  unfolding unmap_from
  uvmunmap do_free root va npages m =
      if not (va % page_size == 0) then none else unmap_from npages do_free root va m

  unfoldable pub uvmdealloc : (root oldsz newsz : ℕ) → Ram → Option (ℕ × Ram)
  unfolding uvmunmap
  uvmdealloc root oldsz newsz m =
      if leb oldsz newsz
      then some (oldsz, m)
      else if ltb (pg_up newsz) (pg_up oldsz)
      then elim (uvmunmap true root (pg_up newsz) ((pg_up oldsz - pg_up newsz) / page_size) m) [
        | none ↦ none
        | some m' ↦ some (newsz, m')
      ]
      else some (newsz, m)

  -- What `uvmalloc` does when it is out of memory at `a`.
  abbrev pub undo_alloc : (root a oldsz : ℕ) → Ram → Option (ℕ × Ram)
  undo_alloc root a oldsz m = elim (uvmdealloc root a oldsz m) [
    | none ↦ none
    | some (sz, m') ↦ some (0, m')
  ]

  -- A page of zeros at `va`, with W, R and U, or what `perm` says: `none` inside if memory is out. The page
  -- is freed if there is no room for the tables.
  unfoldable pub map_zeros : (root va : ℕ) → Perm → Ram → Option (Option ℕ × Ram)
  unfolding kalloc kfree mappages
  map_zeros root va perm m = elim (kalloc m).0 [
    | none ↦ some (none, (kalloc m).1)
    | some mem ↦ elim (mappages root va page_size mem perm (fill (kalloc m).1 mem 0)) [
      | none ↦ none
      | some (true, m') ↦ some (some mem, m')
      | some (false, m') ↦ elim (kfree kernel_end mem m') [
        | none ↦ none
        | some m'' ↦ some (none, m'')
      ]
    ]
  ]

  -- The loop of `uvmalloc`, `k` pages from `a` on, where `oldsz` is rounded up.
  unfoldable pub alloc_from : (k root oldsz newsz a : ℕ) (xperm : Perm) → Ram → Option (ℕ × Ram)
  unfolding map_zeros uvmdealloc
  alloc_from zero root oldsz newsz a perm m = some (newsz, m)
  alloc_from (suc k) root oldsz newsz a perm m = elim (map_zeros root a perm m) [
    | none ↦ none
    | some (none, m') ↦ undo_alloc root a oldsz m'
    | some (some mem, m') ↦ alloc_from k root oldsz newsz (a + page_size) perm m'
  ]

  -- `perm` is `PTE_R | PTE_U | xperm`.
  unfoldable pub uvmalloc : (root oldsz newsz : ℕ) → Perm → Ram → Option (ℕ × Ram)
  unfolding alloc_from
  uvmalloc root oldsz newsz perm m =
      if ltb newsz oldsz
      then some (oldsz, m)
      else alloc_from ((pg_up newsz - pg_up oldsz) / page_size) root (pg_up oldsz) newsz
          (pg_up oldsz) perm m
