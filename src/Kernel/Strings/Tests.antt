-- ===== src/Kernel/Strings/Tests.antt =====
-- Runs of the string functions, and the theorems about them at concrete inputs.
use operating_system_lab_pro.Prelude.{◌≡◌, inl, refl, arith, get_or, [], ◌∷◌, negsuc, ◌-ℤ◌}
use operating_system_lab_pro.Kernel.Strings.{Mem, memmove, memcmp, strncmp, strncpy, safestrcpy}
use operating_system_lab_pro.Kernel.Strings.Move.{moved, memmove-moved}
use operating_system_lab_pro.Kernel.Strings.Copy.{Copied, safestrcpy-Copied}

-- `abcd`, and a NUL everywhere else.
abbrev memory : Mem
memory a = get_or (97 ∷ 98 ∷ 99 ∷ 100 ∷ []) a 0

-- The ranges overlap.
shifted : memmove memory 1 0 4 4 ≡ 100
unfolding memmove
shifted = refl

ordered : strncmp memory 0 1 3 ≡ negsuc 0
unfolding strncmp ◌-ℤ◌
ordered = refl

compared : memcmp memory 0 1 2 ≡ negsuc 0
unfolding memcmp ◌-ℤ◌
compared = refl

padded : strncpy memory 10 2 5 14 ≡ 0
unfolding strncpy
padded = refl

memmove-moved_example : memmove memory 1 0 4 4 ≡ moved memory 1 0 4 4
memmove-moved_example = memmove-moved memory 1 0 4 4

safestrcpy-Copied_example : Copied memory 20 0 2 (safestrcpy memory 20 0 3)
safestrcpy-Copied_example = safestrcpy-Copied memory 20 0 3 (omega arith) (inl (omega arith))
