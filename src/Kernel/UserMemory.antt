-- ===== src/Kernel/UserMemory.antt =====
-- What the system calls ask of kernel/vm.c: `copyin` and `copyout`, which move bytes between a
-- kernel buffer and the caller's address space. They work page by page, so a call that fails may
-- have moved a part; the caller's memory changes also under `copyin`, by a lazily allocated page.
use operating_system_lab_pro.Prelude.{ℕ, ◌≤◌, ◌≡◌, Bool, true, List, ◌++◌, length, drop}

pub record UserMemory : Type 1 where
  pub Mem : Type 0
  -- `copyin(pagetable, dst, srcva, len)`: the memory, the bytes that were written to `dst`, and
  -- whether it returned 0.
  pub copyin : Mem → (len srcva : ℕ) → Mem × List ℕ × Bool
  -- `copyout(pagetable, dstva, src, sizeof src)`: the memory, and whether it returned 0.
  pub copyout : Mem → (dstva : ℕ) (src : List ℕ) → Mem × Bool
  -- `copyin` writes inside its buffer, and fills it if it succeeds.
  pub copyin-le : (m : Mem) (len srcva : ℕ) → length (copyin m len srcva).1 ≤ len
  pub copyin_full :
      (m : Mem) (len srcva : ℕ)
      → (copyin m len srcva).2 ≡ true
      → length (copyin m len srcva).1 ≡ len

-- The buffer after `bytes` have been written at its start.
abbrev pub overwrite : (dst bytes : List ℕ) → List ℕ
overwrite dst bytes = bytes ++ drop (length bytes) dst
