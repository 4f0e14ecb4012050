-- ===== src/Kernel/Strings/Move.antt =====
-- `memmove` and `memcpy`, whose ranges may overlap, and `memset`.
use operating_system_lab_pro.Prelude.{
  ℕ, zero, suc, ◌+◌, ◌-◌, ◌%◌, ◌≤◌, ◌<◌, ◌≡◌, ◌⊎◌, inl, inr, ap, ◌∙◌, ◌&&◌, arith, ltb, leb,
  if◌then◌else◌, Bool-cases,
}
use operating_system_lab_pro.Kernel.Strings.{
  Mem, store, memset_from, memset, copy_up, copy_down, memmove,
}

-- The memory in which the `n` bytes from `dst` on are those that stood from `src` on.
abbrev pub moved : Mem → (dst src n : ℕ) → Mem
moved m dst src n a = if leb dst a && ltb a (dst + n) then m (src + (a - dst)) else m a

copy_up-moved :
    (m : Mem) (d s n a : ℕ) → (d ≤ s) ⊎ (s + n ≤ d) → copy_up m d s n a ≡ moved m d s n a
unfolding copy_up
copy_up-moved m d s zero a apart = ground arith
copy_up-moved m d s (suc n) a apart = elim apart [
  | inl le ↦ ground (arith, copy_up-moved (store m d (m s)) (d + 1) (s + 1) n a (inl (omega arith)))
  | inr le ↦ ground (arith, copy_up-moved (store m d (m s)) (d + 1) (s + 1) n a (inr (omega arith)))
]

copy_down-moved :
    (m : Mem) (d s n a : ℕ) → s < d → copy_down m (d + n) (s + n) n a ≡ moved m d s n a
unfolding copy_down
copy_down-moved m d s zero a lt = ground arith
copy_down-moved m d s (suc n) a lt =
    let from = s + suc n - 1 in
    let to_lem : d + suc n - 1 ≡ d + n = omega arith in
    let from_lem : from ≡ s + n = omega arith in
    ap (λ i. copy_down (store m i (m from)) i from n a) to_lem
    ∙ ap (λ i. copy_down (store m (d + n) (m i)) (d + n) i n a) from_lem
    ∙ ground (arith, copy_down-moved (store m (d + n) (m (s + n))) d s n a lt)

-- Whether or not the ranges overlap: `memmove` leaves at `dst` the `n` bytes that stood at `src` before,
-- and every other byte as it was.
pub memmove-moved : (m : Mem) (dst src n a : ℕ) → memmove m dst src n a ≡ moved m dst src n a
unfolding memmove
memmove-moved m dst src n a = elim (Bool-cases (ltb src dst && ltb dst (src + n))) [
  | inl e ↦ ground (arith, e, copy_down-moved m dst src n a (ground (arith, e)))
  | inr e ↦
      let apart : (dst ≤ src) ⊎ (src + n ≤ dst) = ground (arith, e) in
      ground (arith, e, copy_up-moved m dst src n a apart)
]

memset_from_lem :
    (m : Mem) (dst c i k a : ℕ)
    → memset_from m dst c i k a ≡ (if leb (dst + i) a && ltb a (dst + i + k) then c % 256 else m a)
unfolding memset_from
memset_from_lem m dst c i zero a = ground arith
memset_from_lem m dst c i (suc k) a =
    ground (arith, memset_from_lem (store m (dst + i) (c % 256)) dst c (i + 1) k a)

-- `memset` writes the last byte of `c` to the `n` bytes from `dst` on and leaves the others.
pub memset_lem :
    (m : Mem) (dst c n a : ℕ)
    → memset m dst c n a ≡ (if leb dst a && ltb a (dst + n) then c % 256 else m a)
unfolding memset
memset_lem m dst c n a = ground (arith, memset_from_lem m dst c 0 n a)
