-- ===== src/Kernel/Vm.antt =====
-- kernel/vm.c: three-level page tables in physical memory, and the memory of a process on top of them. A
-- page table is the number of its root page; `none` at the outside of a result is a panic.
pub mod Region
pub mod Space
pub mod User
pub mod Own
pub mod Grow
pub mod Store
pub mod Memory
pub mod Place
pub mod Zeros
pub mod Fault
pub mod Bytes
pub mod Copyin
pub mod Copyout
pub mod Rounds
pub mod RoundTrip
pub mod Boot
mod Tests
use operating_system_lab_pro.Prelude.{
  ℕ, zero, suc, ◌+◌, ◌-◌, ◌*◌, ◌/◌, ◌%◌, Bool, true, false, not, ◌&&◌, ◌||◌, List, [], ◌∷◌, ◌++◌,
  Option, none, some, ◌==◌, ltb, leb, if◌then◌else◌, min,
}
use operating_system_lab_pro.Kernel.Page.{page_size, Pte, zero_pte, Ram, fill, kalloc, kfree}

-- 2 ^ 38
abbrev pub maxva : ℕ
maxva = 274877906944

-- `PX(level, va)`
abbrev pub px2 : ℕ → ℕ
px2 va = va / 1073741824 % 512

abbrev pub px1 : ℕ → ℕ
px1 va = va / 2097152 % 512

abbrev pub px0 : ℕ → ℕ
px0 va = va / 4096 % 512

-- `PGROUNDUP` and `PGROUNDDOWN`
abbrev pub pg_up : ℕ → ℕ
pg_up a = (a + page_size - 1) / page_size * page_size

abbrev pub pg_down : ℕ → ℕ
pg_down a = a / page_size * page_size

abbrev pub set_pte : Ram → (table i : ℕ) → Pte → Ram
set_pte m table i e = record m {
  ptes = λ p k. if p == table then if k == i then e else m.ptes p k else m.ptes p k;
}

-- `PA2PTE(pagetable) | PTE_V`
abbrev pub table_pte : ℕ → Pte
table_pte page = record { ppn = page; v = true; r = false; w = false; x = false; u = false }

-- The body of the loop of `walk`: from entry `i` of a table to the next table.
unfoldable pub step_down : (alloc : Bool) → (table i : ℕ) → Ram → Option ℕ × Ram
unfolding kalloc
step_down alloc table i m =
    let e = m.ptes table i in
    if e.v
    then (some e.ppn, m)
    else if alloc
    then elim (kalloc m).0 [
      | none ↦ (none, (kalloc m).1)
      | some page ↦ (some page, set_pte (fill (kalloc m).1 page 0) table i (table_pte page))
    ]
    else (none, m)

-- The loop: the last table and the index of the entry.
unfoldable pub walk_from : (alloc : Bool) → (root va : ℕ) → Ram → Option (ℕ × ℕ) × Ram
unfolding step_down
walk_from alloc root va m =
    let (t1, m1) = step_down alloc root (px2 va) m in
    elim t1 [
      | none ↦ (none, m1)
      | some t1 ↦
          let (t0, m0) = step_down alloc t1 (px1 va) m1 in
          elim t0 [ none ↦ (none, m0) | some t0 ↦ (some (t0, px0 va), m0) ]
    ]

unfoldable pub walk : (alloc : Bool) → (root va : ℕ) → Ram → Option (Option (ℕ × ℕ) × Ram)
unfolding walk_from
walk alloc root va m = if leb maxva va then none else some (walk_from alloc root va m)

-- The page of a user address.
unfoldable pub walkaddr : (root va : ℕ) → Ram → Option ℕ
unfolding walk_from
walkaddr root va m = if leb maxva va then none else elim (walk_from false root va m).0 [
  | none ↦ none
  | some (t, i) ↦ if (m.ptes t i).v && (m.ptes t i).u then some (m.ptes t i).ppn else none
]
