-- ===== src/Kernel/Strings/Copy.antt =====
-- `memcmp` and `safestrcpy`.
use operating_system_lab_pro.Prelude.{
  ℕ, zero, suc, ◌+◌, ◌-◌, ◌≤◌, ◌<◌, ◌≡◌, ◌≢◌, ◌↔◌, ◌⊎◌, inl, inr, refl, sym, ◌∙◌, arith, ℕ_discrete,
  pos, ◌-ℤ◌,
}
use mathlib.Core.Path.{subst}
use operating_system_lab_pro.Kernel.Strings.{Mem, store, memcmp, safestrcpy_from, safestrcpy}

-- The two ranges hold the same bytes.
abbrev pub SameBytes : Mem → (s1 s2 n : ℕ) → Type 0
SameBytes m s1 s2 n = (i : ℕ) → i < n → m (s1 + i) ≡ m (s2 + i)

sub_zero : (a b : ℕ) → pos a -ℤ pos b ≡ pos 0 → a ≡ b
unfolding ◌-ℤ◌
sub_zero a b e = ground (arith, e)

memcmp_first : (m : Mem) (s1 s2 n : ℕ) → memcmp m s1 s2 (suc n) ≡ pos 0 → m s1 ≡ m s2
unfolding memcmp
memcmp_first m s1 s2 n e = elim (ℕ_discrete (m s1) (m s2)) [
  | yes same ↦ same
  | no ne ↦ sub_zero (m s1) (m s2) (ground (arith, e, ne))
]

memcmp_rest :
    (m : Mem) (s1 s2 n : ℕ) → m s1 ≡ m s2 → memcmp m s1 s2 (suc n) ≡ memcmp m (s1 + 1) (s2 + 1) n
unfolding memcmp
memcmp_rest m s1 s2 n same = ground (arith, same)

memcmp_to : (m : Mem) (s1 s2 n : ℕ) → memcmp m s1 s2 n ≡ pos 0 → SameBytes m s1 s2 n
memcmp_to m s1 s2 zero e i lt = absurd (omega arith)
memcmp_to m s1 s2 (suc n) e zero lt = ground (arith, memcmp_first m s1 s2 n e)
memcmp_to m s1 s2 (suc n) e (suc i) lt =
    let rest = sym (memcmp_rest m s1 s2 n (memcmp_first m s1 s2 n e)) ∙ e in
    ground (arith, memcmp_to m (s1 + 1) (s2 + 1) n rest i (omega arith))

memcmp_of : (m : Mem) (s1 s2 n : ℕ) → SameBytes m s1 s2 n → memcmp m s1 s2 n ≡ pos 0
unfolding memcmp
memcmp_of m s1 s2 zero h = refl
memcmp_of m s1 s2 (suc n) h =
    memcmp_rest m s1 s2 n (ground (arith, h 0 (omega arith)))
    ∙ memcmp_of m (s1 + 1) (s2 + 1) n (λ i lt. ground (arith, h (suc i) (omega arith)))

-- `memcmp` returns 0 exactly if the two ranges hold the same bytes.
pub memcmp_iff : (m : Mem) (s1 s2 n : ℕ) → (memcmp m s1 s2 n ≡ pos 0) ↔ SameBytes m s1 s2 n
memcmp_iff m s1 s2 n = (memcmp_to m s1 s2 n, memcmp_of m s1 s2 n)

-- What a string copy of at most `k` bytes leaves at `s`: `len` bytes of `t`, none a NUL, then a NUL, and
-- no byte changed outside of `k + 1` bytes.
pub record Copied (m : Mem) (s t k : ℕ) (m' : Mem) : Type 0 where
  pub len : ℕ
  pub len-le : len ≤ k
  pub copied : (i : ℕ) → i < len → (m' (s + i) ≡ m (t + i)) × (m (t + i) ≢ 0)
  pub ended : m' (s + len) ≡ 0
  pub whole : (len ≡ k) ⊎ (m (t + len) ≡ 0)
  pub others : (a : ℕ) → (a < s) ⊎ (s + k < a) → m' a ≡ m a

module _ (m : Mem) (s t k : ℕ) (apart : (t + suc k < s) ⊎ (s + suc k < t)) where
  empty-Copied : m t ≡ 0 → Copied m s t (suc k) (store (store m s (m t)) (s + 1) 0)
  empty-Copied e = record {
    len = 0;
    len-le = omega arith;
    copied = λ i lt. absurd (omega arith);
    ended = ground (arith, e);
    whole = inr (ground (arith, e));
    others = λ a out. ground (arith, out);
  }

  longer-Copied :
      (m' : Mem) → m t ≢ 0 → Copied (store m s (m t)) (s + 1) (t + 1) k m' → Copied m s t (suc k) m'
  longer-Copied m' ne r = record {
    len = suc r.len;
    len-le = omega (arith, r.len-le);
    copied = λ i lt. elim (ℕ_discrete i 0) [
      | yes first ↦ ground (arith, first, r.others s (inl (omega arith)), ne)
      | no later ↦ ground (arith, r.copied (i - 1) (omega arith), apart, r.len-le)
    ];
    ended = ground (arith, r.ended);
    whole = ground (arith, r.whole, apart, r.len-le);
    others = λ a out. ground (arith, out, r.others a (ground (arith, out)));
  }

safestrcpy_from-Copied :
    (m : Mem) (s t k : ℕ) → (t + k < s) ⊎ (s + k < t) → Copied m s t k (safestrcpy_from m s t k)
unfolding safestrcpy_from
safestrcpy_from-Copied m s t zero apart = record {
  len = 0;
  len-le = omega arith;
  copied = λ i lt. absurd (omega arith);
  ended = ground arith;
  whole = inl refl;
  others = λ a out. ground (arith, out);
}
safestrcpy_from-Copied m s t (suc k) apart = elim (ℕ_discrete (m t) 0) [
  | yes e ↦ subst (Copied m s t (suc k)) (ground (arith, e)) (empty-Copied m s t k apart e)
  | no ne ↦ subst (Copied m s t (suc k)) (ground (arith, ne)) (
      longer-Copied m s t k apart (safestrcpy_from (store m s (m t)) (s + 1) (t + 1) k) ne
        (safestrcpy_from-Copied (store m s (m t)) (s + 1) (t + 1) k (ground (arith, apart))))
]

-- With room for `n` bytes, one or more, apart from the string: `safestrcpy` copies the bytes of `t` up to
-- its NUL or up to the first `n - 1`, ends them with a NUL, and writes nowhere else than in the room.
pub safestrcpy-Copied :
    (m : Mem) (s t n : ℕ)
    → 0 < n
    → (t + n ≤ s) ⊎ (s + n ≤ t)
    → Copied m s t (n - 1) (safestrcpy m s t n)
unfolding safestrcpy
safestrcpy-Copied m s t zero lt apart = absurd (omega arith)
safestrcpy-Copied m s t (suc n) lt apart =
    subst (λ k. Copied m s t k (safestrcpy_from m s t n)) (omega arith)
      (safestrcpy_from-Copied m s t n (ground (arith, apart)))
