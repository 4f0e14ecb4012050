-- ===== src/Kernel/Log/Absorb.antt =====
-- What `log_write` does to the list of logged blocks: a block that is in it is not added again.
use operating_system_lab_pro.Prelude.{
  ℕ, zero, suc, ◌+◌, ◌<◌, ◌≤◌, ◌≡◌, refl, ap, ◌∙◌, true, false, ◌||◌, List, [], ◌∷◌, some, ◌==◌,
  if◌then◌else◌, arith, length, length-set, get_elem?, set, set_same, take, Bool-cases, inl, inr,
}
use mathlib.Core.Path.{subst}
use operating_system_lab_pro.Kernel.Log.{log_blocks, Log, logged, index_of, log_write}
use operating_system_lab_pro.Kernel.Log.Writes.{member}

index_of-member :
    (b i n : ℕ) (xs : List ℕ)
    → member b (take n xs) ≡ true
    → (k : ℕ) × (index_of b i (take n xs) ≡ i + k) × (k < n) × (get_elem? xs k ≡ some b)
unfolding index_of
index_of-member b i zero xs e = absurd (ground (arith, e))
index_of-member b i (suc n) [] e = absurd (ground (arith, e))
index_of-member b i (suc n) (x ∷ xs) e = elim (Bool-cases (x == b)) [
  | inl here ↦ (0, ground (arith, here), omega arith, ground (arith, here))
  | inr away ↦
      let (k, at, below, found) = index_of-member b (i + 1) n xs (ground (arith, e, away)) in
      (suc k, ground (arith, away, at), omega (arith, below), found)
]

index_of_missing :
    (b i n : ℕ) (xs : List ℕ)
    → member b (take n xs) ≡ false
    → n ≤ length xs
    → index_of b i (take n xs) ≡ i + n
unfolding index_of
index_of_missing b i zero xs e h = omega arith
index_of_missing b i (suc n) [] e h = absurd (omega (arith, h))
index_of_missing b i (suc n) (x ∷ xs) e h =
    let rest = index_of_missing b (i + 1) n xs (ground (arith, e)) (omega (arith, h)) in
    ground (arith, e, rest)

member-take-set :
    (b c n : ℕ) (xs : List ℕ)
    → n < length xs
    → member c (take (n + 1) (set xs n b)) ≡ member c (take n xs) || b == c
member-take-set b c zero [] h = absurd (omega (arith, h))
member-take-set b c zero (x ∷ xs) h = ground arith
member-take-set b c (suc n) [] h = absurd (omega (arith, h))
member-take-set b c (suc n) (x ∷ xs) h =
    let size : suc n + 1 ≡ suc (n + 1) = omega arith in
    ap (λ k. member c (take k (x ∷ set xs n b))) size
    ∙ ground (arith, member-take-set b c n xs (omega (arith, h)))

-- `l'` is `l` with block `b` logged.
pub record Absorbs (l : Log) (b : ℕ) (l' : Log) : Type 0 where
  pub outstanding : l'.outstanding ≡ l.outstanding
  pub committing : l'.committing ≡ l.committing
  pub size : length l'.lh.block ≡ length l.lh.block
  pub count : l'.lh.n ≡ (if member b (logged l.lh) then l.lh.n else l.lh.n + 1)
  pub listed : (c : ℕ) → member c (logged l'.lh) ≡ member c (logged l.lh) || b == c

member_same : (b c : ℕ) (xs : List ℕ) → member b xs ≡ true → member c xs ≡ member c xs || b == c
member_same b c xs e = ground (arith, e)

pub log_write-Absorbs :
    (l l' : Log) (b : ℕ) → length l.lh.block ≡ log_blocks → log_write l b ≡ some l' → Absorbs l b l'
unfolding log_write
log_write-Absorbs l l' b size e = elim (Bool-cases (member b (logged l.lh))) [
  | inl old ↦
      let (k, at, below, found) = index_of-member b 0 l.lh.n l.lh.block old in
      let same : set l.lh.block k b ≡ l.lh.block = set_same l.lh.block k b found in
      let index : index_of b 0 (logged l.lh) ≡ k = omega (arith, at) in
      let after : l ≡ l' = ground (arith, e, index, below, same) in
      subst (Absorbs l b) after (record {
        outstanding = refl;
        committing = refl;
        size = refl;
        count = ground (arith, old);
        listed = λ c. member_same b c (logged l.lh) old;
      })
  | inr new ↦
      let fits : l.lh.n < log_blocks = ground (arith, e) in
      let at = index_of_missing b 0 l.lh.n l.lh.block new (omega (arith, fits, size)) in
      let index : index_of b 0 (logged l.lh) ≡ l.lh.n = omega (arith, at) in
      let after : record l { lh = record { n = l.lh.n + 1; block = set l.lh.block l.lh.n b } }
          ≡ l' =
        ground (arith, e, index) in
      subst (Absorbs l b) after (record {
        outstanding = refl;
        committing = refl;
        size = length-set l.lh.block l.lh.n b;
        count = ground (arith, new);
        listed = λ c. member-take-set b c l.lh.n l.lh.block (omega (arith, fits, size));
      })
]
