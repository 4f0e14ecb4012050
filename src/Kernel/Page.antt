-- ===== src/Kernel/Page.antt =====
-- kernel/kalloc.c, and the page table entries of kernel/riscv.h. A page of physical memory is named by its
-- number, its address over 4096. Its contents are seen in two ways, as bytes and as the 512 entries of a
-- page table; a page is used in one of the two, and `memset` sets both. The link that a free page
-- holds is the list `freelist`.
use operating_system_lab_pro.Prelude.{
  ℕ, zero, suc, ◌+◌, ◌-◌, ◌*◌, ◌/◌, ◌%◌, Bool, false, ◌||◌, List, [], ◌∷◌, Option, none, some, ◌==◌,
  ltb, leb, if◌then◌else◌,
}

abbrev pub page_size : ℕ
page_size = 4096

abbrev pub phystop : ℕ
phystop = 2281701376

-- An entry: the page that it points to and the flags V, R, W, X and U.
pub record Pte : Type 0 where
  pub ppn : ℕ
  pub v : Bool
  pub r : Bool
  pub w : Bool
  pub x : Bool
  pub u : Bool

abbrev pub zero_pte : Pte
zero_pte = record { ppn = 0; v = false; r = false; w = false; x = false; u = false }

abbrev pub bit : (word k : ℕ) → Bool
bit word k = word / k % 2 == 1

-- The entry that a word of memory is.
unfoldable pub decode : ℕ → Pte
decode word = record {
  ppn = word / 1024;
  v = bit word 1;
  r = bit word 2;
  w = bit word 4;
  x = bit word 8;
  u = bit word 16;
}

-- Eight times the byte `c`.
abbrev pub word_of : ℕ → ℕ
word_of c = c * 72340172838076673

pub record Ram : Type 0 where
  pub freelist : List ℕ
  pub ptes : (page index : ℕ) → Pte
  pub bytes : (page offset : ℕ) → ℕ

-- `memset(pa, c, PGSIZE)`
abbrev pub fill : Ram → (page c : ℕ) → Ram
fill m page c = record m {
  ptes = λ p i. if p == page then decode (word_of c) else m.ptes p i;
  bytes = λ p o. if p == page then c else m.bytes p o;
}

unfoldable pub kalloc : Ram → Option ℕ × Ram
kalloc m = elim m.freelist [
  | [] ↦ (none, m)
  | page ∷ rest ↦ (some page, fill (record m { freelist = rest }) page 5)
]

-- `kernel_end` is the address `end`, which the linker sets.
module _ (kernel_end : ℕ) where
  -- `none` is the panic.
  unfoldable pub kfree : (page : ℕ) → Ram → Option Ram
  kfree page m =
      if ltb (page * page_size) kernel_end || leb phystop (page * page_size)
      then none
      else let m' = fill m page 1 in some (record m' { freelist = page ∷ m'.freelist })

  -- The loop of `freerange`, `k` pages from `page` on.
  unfoldable pub freerange_from : (k page : ℕ) → Ram → Option Ram
  unfolding kfree
  freerange_from zero page m = some m
  freerange_from (suc k) page m = elim (kfree page m) [
    | none ↦ none
    | some m' ↦ freerange_from k (page + 1) m'
  ]

  -- The pages that lie wholly between two addresses.
  unfoldable pub freerange : (pa_start pa_end : ℕ) → Ram → Option Ram
  unfolding freerange_from
  freerange pa_start pa_end m =
      let first = (pa_start + page_size - 1) / page_size in
      freerange_from (pa_end / page_size - first) first m

  -- `kmem` is zero at the start.
  unfoldable pub kinit : Ram → Option Ram
  unfolding freerange
  kinit m = freerange kernel_end phystop (record m { freelist = [] })
