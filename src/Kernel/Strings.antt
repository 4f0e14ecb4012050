-- ===== src/Kernel/Strings.antt =====
-- kernel/string.c. Memory is a function from addresses to bytes; addresses do not wrap around.
pub mod Move
pub mod Copy
mod Tests
use operating_system_lab_pro.Prelude.{
  ℕ, zero, suc, ◌+◌, ◌-◌, ◌%◌, Bool, true, false, not, ◌&&◌, ◌||◌, ◌==◌, ltb, if◌then◌else◌, ℤ, pos,
  ◌-ℤ◌,
}

abbrev pub Mem : Type 0
Mem = ℕ → ℕ

-- `*p = v`
abbrev pub store : Mem → (p v : ℕ) → Mem
store m p v a = if a == p then v else m a

-- The loop of `memset` from `i` on, with `k` bytes to go; `c` is cut to a `char`.
unfoldable pub memset_from : Mem → (dst c i k : ℕ) → Mem
memset_from m dst c i zero = m
memset_from m dst c i (suc k) = memset_from (store m (dst + i) (c % 256)) dst c (i + 1) k

unfoldable pub memset : Mem → (dst c n : ℕ) → Mem
unfolding memset_from
memset m dst c n = memset_from m dst c 0 n

unfoldable pub memcmp : Mem → (s1 s2 n : ℕ) → ℤ
memcmp m s1 s2 zero = pos 0
memcmp m s1 s2 (suc n) =
    let rest = memcmp m (s1 + 1) (s2 + 1) n in
    if m s1 == m s2 then rest else pos (m s1) -ℤ pos (m s2)

-- `while(n-- > 0) *d++ = *s++;`
unfoldable pub copy_up : Mem → (d s n : ℕ) → Mem
copy_up m d s zero = m
copy_up m d s (suc n) = copy_up (store m d (m s)) (d + 1) (s + 1) n

-- `while(n-- > 0) *--d = *--s;`
unfoldable pub copy_down : Mem → (d s n : ℕ) → Mem
copy_down m d s zero = m
copy_down m d s (suc n) = copy_down (store m (d - 1) (m (s - 1))) (d - 1) (s - 1) n

unfoldable pub memmove : Mem → (dst src n : ℕ) → Mem
unfolding copy_up copy_down
memmove m dst src n =
    if n == 0
    then m
    else if ltb src dst && ltb dst (src + n)
    then copy_down m (dst + n) (src + n) n
    else copy_up m dst src n

unfoldable pub memcpy : Mem → (dst src n : ℕ) → Mem
unfolding memmove
memcpy m dst src n = memmove m dst src n

unfoldable pub strncmp : Mem → (p q n : ℕ) → ℤ
strncmp m p q zero = pos 0
strncmp m p q (suc n) =
    let rest = strncmp m (p + 1) (q + 1) n in
    if m p == 0 || not (m p == m q) then pos (m p) -ℤ pos (m q) else rest

-- `while(n-- > 0) *s++ = 0;`
unfoldable pub zero_fill : Mem → (s n : ℕ) → Mem
zero_fill m s zero = m
zero_fill m s (suc n) = zero_fill (store m s 0) (s + 1) n

unfoldable pub strncpy : Mem → (s t n : ℕ) → Mem
unfolding zero_fill
strncpy m s t zero = m
strncpy m s t (suc n) =
    let filled = zero_fill (store m s (m t)) (s + 1) n in
    let rest = strncpy (store m s (m t)) (s + 1) (t + 1) n in if m t == 0 then filled else rest

-- The loop of `safestrcpy` with room for `k` bytes before the NUL, and the NUL.
unfoldable pub safestrcpy_from : Mem → (s t k : ℕ) → Mem
safestrcpy_from m s t zero = store m s 0
safestrcpy_from m s t (suc k) =
    let rest = safestrcpy_from (store m s (m t)) (s + 1) (t + 1) k in
    if m t == 0 then store (store m s (m t)) (s + 1) 0 else rest

unfoldable pub safestrcpy : Mem → (s t n : ℕ) → Mem
unfolding safestrcpy_from
safestrcpy m s t zero = m
safestrcpy m s t (suc n) = safestrcpy_from m s t n
