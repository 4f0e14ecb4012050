-- ===== src/Prelude/Bits.antt =====
-- A 64-bit word as its bits, for code that only sets, clears and tests bits of it.
use Prim.Native.Nat.{ℕ, zero, suc, ◌<◌}
use mathlib.Core.Path.{◌≡◌}
use mathlib.Core.Bool.{Bool, true, false, ◌||◌}
use native.Mathlib.Omega.{arith}
use operating_system_lab_pro.Prelude.Tests.{Bool-cases}
use mathlib.Core.Logic.{inl, inr}
use native.Mathlib.Decide.{dec_lt}

abbrev pub Word : Type 0
Word = ℕ → Bool

-- Is one of the bits below `n` set?
unfoldable pub any_below : ℕ → Word → Bool
any_below zero w = false
any_below (suc n) w = w n || any_below n w

pub any_below_intro : (n : ℕ) (w : Word) (j : ℕ) → j < n → w j ≡ true → any_below n w ≡ true
unfolding any_below
any_below_intro zero w j lt e = elim lt [ ]
any_below_intro (suc n) w j lt e = elim (dec_lt j n) [
  | yes below ↦ ground (arith, any_below_intro n w j below e)
  | no last ↦ ground arith
]

pub any_below_elim : (n : ℕ) (w : Word) → any_below n w ≡ true → (j : ℕ) × (j < n) × (w j ≡ true)
unfolding any_below
any_below_elim zero w e = absurd (cc)
any_below_elim (suc n) w e = elim (Bool-cases (w n)) [
  | inl t ↦ (n, omega arith, t)
  | inr f ↦ let (j, lt, t) = any_below_elim n w (ground arith) in (j, omega arith, t)
]
