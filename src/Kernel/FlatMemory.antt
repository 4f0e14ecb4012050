-- ===== src/Kernel/FlatMemory.antt =====
-- A concrete `UserMemory`, for examples: one process with a flat memory from address 0 on.
use operating_system_lab_pro.Prelude.{
  ℕ, ◌+◌, ◌≤◌, ◌≡◌, Bool, true, false, List, [], ◌++◌, arith, length, take, drop, leb,
  if◌then◌else◌, length-take, length-drop,
}
use operating_system_lab_pro.Kernel.UserMemory.{UserMemory}

abbrev pub flat_copyin : List ℕ → (len srcva : ℕ) → List ℕ × List ℕ × Bool
flat_copyin m len srcva =
    if leb (srcva + len) (length m) then (m, take len (drop srcva m), true) else (m, [], false)

abbrev pub flat_copyout : List ℕ → (dstva : ℕ) (src : List ℕ) → List ℕ × Bool
flat_copyout m dstva src =
    if leb (dstva + length src) (length m)
    then (take dstva m ++ (src ++ drop (dstva + length src) m), true)
    else (m, false)

pub flat_copyin-le : (m : List ℕ) (len srcva : ℕ) → length (flat_copyin m len srcva).1 ≤ len
flat_copyin-le m len srcva = ground (arith, length-take len (drop srcva m))

pub flat_copyin_full :
    (m : List ℕ) (len srcva : ℕ)
    → (flat_copyin m len srcva).2 ≡ true
    → length (flat_copyin m len srcva).1 ≡ len
flat_copyin_full m len srcva e = ground (arith, length-take len (drop srcva m), length-drop srcva m)

abbrev pub flat : UserMemory
flat = record {
  Mem = List ℕ;
  copyin = flat_copyin;
  copyout = flat_copyout;
  copyin-le = flat_copyin-le;
  copyin_full = flat_copyin_full;
}
