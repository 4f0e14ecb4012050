-- ===== src/Kernel/Signal/Mask.antt =====
-- kernel/proc.c and kernel/trap.c: the bits of `pending_signals`. The code writes `1 << i`, an `int`,
-- into a `uint64`: for i = 31 the value is INT_MIN, which is extended by its sign, so that signal 31
-- stands for the bits 31 to 63.
use operating_system_lab_pro.Prelude.{
  ℕ, ◌<◌, ◌≡◌, refl, Bool, true, false, not, ◌&&◌, ◌||◌, arith, ltb, leb, ◌==◌, if◌then◌else◌,
  Bool-cases, inl, inr, Word, any_below, any_below_intro, any_below_elim,
}

abbrev pub nsig : ℕ
nsig = 32

-- The bits of `(uint64)(1 << i)`.
abbrev pub shift_one : ℕ → Word
shift_one i j = if i == 31 then leb 31 j && ltb j 64 else j == i

-- `w |= (1 << i)`
unfoldable pub set_signal : ℕ → Word → Word
set_signal i w j = w j || shift_one i j

-- `w &= ~(1 << i)`
unfoldable pub clear_signal : ℕ → Word → Word
clear_signal i w j = w j && not (shift_one i j)

-- `w & (1 << i)`
unfoldable pub has_signal : Word → ℕ → Bool
has_signal w i = any_below 64 (λ j. w j && shift_one i j)

-- `w > 0`
unfoldable pub any_signal : Word → Bool
any_signal w = any_below 64 w

same_any :
    (f g : Word)
    → ((j : ℕ) → j < 64 → f j ≡ true → g j ≡ true)
    → any_below 64 f ≡ true
    → any_below 64 g ≡ true
same_any f g h e = let (j, lt, t) = any_below_elim 64 f e in any_below_intro 64 g j lt (h j lt t)

Bool_ext : (a b : Bool) → (a ≡ true → b ≡ true) → (b ≡ true → a ≡ true) → a ≡ b
Bool_ext true b f g = ground (arith, f refl)
Bool_ext false true f g = ground (arith, g refl)
Bool_ext false false f g = refl

any_ext : (f g : Word) → ((j : ℕ) → j < 64 → f j ≡ g j) → any_below 64 f ≡ any_below 64 g
any_ext f g h =
    Bool_ext (any_below 64 f) (any_below 64 g) (same_any f g (λ j lt e. ground (arith, h j lt)))
      (same_any g f (λ j lt e. ground (arith, h j lt)))

none_below : (f : Word) → ((j : ℕ) → j < 64 → f j ≡ true → ⊥) → any_below 64 f ≡ false
none_below f h =
    Bool_ext (any_below 64 f) false
      (λ e. let (j, lt, t) = any_below_elim 64 f e in absurd (h j lt t)) (λ e. ground arith)

module _ (w : Word) (i s : ℕ) (hi : i < nsig) (hs : s < nsig) where
  -- After `w |= (1 << s)` signal s is pending, and any other signal if it was.
  pub has-set_signal : has_signal (set_signal s w) i ≡ (has_signal w i || i == s)
  unfolding has_signal set_signal
  has-set_signal = elim (Bool-cases (i == s)) [
    | inl e ↦
        let here : any_below 64 (λ j. (w j || shift_one s j) && shift_one i j) ≡ true =
          any_below_intro 64 (λ j. (w j || shift_one s j) && shift_one i j) i (omega arith)
            (ground arith) in
        ground arith
    | inr e ↦
        let same : any_below 64 (λ j. (w j || shift_one s j) && shift_one i j)
            ≡ any_below 64 (λ j. w j && shift_one i j) =
          any_ext (λ j. (w j || shift_one s j) && shift_one i j) (λ j. w j && shift_one i j)
            (λ j lt. ground arith) in
        ground arith
  ]

  -- After `w &= ~(1 << s)` signal s is not pending, and any other signal if it was.
  pub has-clear_signal : has_signal (clear_signal s w) i ≡ (has_signal w i && not (i == s))
  unfolding has_signal clear_signal
  has-clear_signal = elim (Bool-cases (i == s)) [
    | inl e ↦
        let none : any_below 64 (λ j. (w j && not (shift_one s j)) && shift_one i j) ≡ false =
          none_below (λ j. (w j && not (shift_one s j)) && shift_one i j)
            (λ j lt t. ground arith) in
        ground arith
    | inr e ↦
        let same : any_below 64 (λ j. (w j && not (shift_one s j)) && shift_one i j)
            ≡ any_below 64 (λ j. w j && shift_one i j) =
          any_ext (λ j. (w j && not (shift_one s j)) && shift_one i j) (λ j. w j && shift_one i j)
            (λ j lt. ground arith) in
        ground arith
  ]

-- The word is positive if and only if one of the signals 0 to 31 is pending.
pub any_signal_of_has : (w : Word) (i : ℕ) → i < nsig → has_signal w i ≡ true → any_signal w ≡ true
unfolding any_signal has_signal
any_signal_of_has w i lt e = same_any (λ j. w j && shift_one i j) w (λ j l t. ground arith) e

pub has_of_any_signal :
    (w : Word) → any_signal w ≡ true → (i : ℕ) × (i < nsig) × (has_signal w i ≡ true)
unfolding any_signal has_signal
has_of_any_signal w e =
    let (j, lt, t) = any_below_elim 64 w e in
    elim (Bool-cases (ltb j 31)) [
      | inl small ↦
          (j, ground arith, any_below_intro 64 (λ k. w k && shift_one j k) j lt (ground arith))
      | inr big ↦
          (31, omega arith, any_below_intro 64 (λ k. w k && shift_one 31 k) j lt (ground arith))
    ]
