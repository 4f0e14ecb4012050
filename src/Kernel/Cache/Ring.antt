-- ===== src/Kernel/Cache/Ring.antt =====
-- The links of the buffers are a ring, and what the assignments do to it.
use operating_system_lab_pro.Prelude.{
  ℕ, suc, ◌≡◌, ◌≢◌, sym, ap, ◌∙◌, List, [], ◌∷◌, ◌==◌, if◌then◌else◌, arith, All, ℕ_discrete,
  length, ◌⊎◌, inl, inr,
}
use mathlib.Core.Path.{subst}
use operating_system_lab_pro.Kernel.Cache.{head, Cache, insert, unlink}

-- From `a` on the links go through `l` and back to the head.
abbrev pub Links : (prev next : ℕ → ℕ) (a : ℕ) → List ℕ → Type 0
Links prev next a [] = (next a ≡ head) × (prev head ≡ a)
Links prev next a (x ∷ xs) = (next a ≡ x) × (prev x ≡ a) × Links prev next x xs

abbrev pub Apart : ℕ → List ℕ → Type 0
Apart a l = All (λ x. a ≢ x) l

abbrev pub Distinct : List ℕ → Type 0
Distinct [] = Unit
Distinct (x ∷ xs) = Apart x xs × Distinct xs

-- The list without `b`.
abbrev pub remove : ℕ → List ℕ → List ℕ
remove b [] = []
remove b (x ∷ xs) = if x == b then xs else x ∷ remove b xs

-- Links that change elsewhere.
Links-ap :
    (prev next prev' next' : ℕ → ℕ) (a : ℕ) (l : List ℕ)
    → next' a ≡ next a
    → All (λ x. next' x ≡ next x) l
    → All (λ x. prev' x ≡ prev x) l
    → prev' head ≡ prev head
    → Links prev next a l
    → Links prev' next' a l
Links-ap prev next prev' next' a [] ea n p eh h = (ea ∙ h.0, eh ∙ h.1)
Links-ap prev next prev' next' a (x ∷ xs) ea n p eh h =
    (ea ∙ h.0, p.0 ∙ h.1, Links-ap prev next prev' next' x xs n.0 n.1 p.1 eh h.2)

All-apart : (P : ℕ → Type 0) (a : ℕ) (l : List ℕ) → Apart a l → ((x : ℕ) → a ≢ x → P x) → All P l
All-apart P a [] h f = ground arith
All-apart P a (x ∷ xs) h f = (f x h.0, All-apart P a xs h.1 f)

All-apart-two :
    (P : ℕ → Type 0) (a b : ℕ) (l : List ℕ)
    → Apart a l
    → Apart b l
    → ((x : ℕ) → a ≢ x → b ≢ x → P x)
    → All P l
All-apart-two P a b [] h k f = ground arith
All-apart-two P a b (x ∷ xs) h k f = (f x h.0 k.0, All-apart-two P a b xs h.1 k.1 f)

-- A new buffer behind the head.
pub Links-insert :
    (c : Cache) (b : ℕ) (l : List ℕ)
    → Distinct (head ∷ l)
    → b ≢ head
    → Apart b l
    → Links c.prev c.next head l
    → Links (insert b c).prev (insert b c).next head (b ∷ l)
Links-insert c b [] d ne apart h = ground (arith, ne, h)
Links-insert c b (x ∷ xs) d ne apart h =
    let here : Links (insert b c).prev (insert b c).next x xs =
      Links-ap c.prev c.next (insert b c).prev (insert b c).next x xs
        (ground (arith, d.0.0, apart.0))
        (All-apart-two (λ y. (insert b c).next y ≡ c.next y) b head xs apart.1 d.0.1
          (λ y e1 e2. ground (arith, e1, e2)))
        (All-apart-two (λ y. (insert b c).prev y ≡ c.prev y) b x xs apart.1 d.1.0
          (λ y e1 e2. ground (arith, e1, e2, h.0, ne)))
        (ground (arith, h.0, ne, d.0.0)) h.2 in
    (
      ground arith,
      ground (arith, h.0, ne, apart.0),
      (ground (arith, h.0, ne), ground (arith, h.0, ne, apart.0), here),
    )

abbrev pub Member : ℕ → List ℕ → Type 0
Member b [] = ⊥
Member b (x ∷ xs) = (b ≡ x) ⊎ Member b xs

prev-Apart :
    (prev next : ℕ → ℕ) (a : ℕ) (l : List ℕ) (b z : ℕ)
    → Links prev next a l
    → Member b l
    → z ≢ a
    → Apart z l
    → z ≢ prev b
prev-Apart prev next a [] b z h i ne d e = i
prev-Apart prev next a (x ∷ xs) b z h (inl same) ne d e = ne (e ∙ ap prev same ∙ h.1)
prev-Apart prev next a (x ∷ xs) b z h (inr i) ne d e = prev-Apart prev next x xs b z h.2 i d.0 d.1 e

next-Apart :
    (prev next : ℕ → ℕ) (a : ℕ) (l : List ℕ) (b z : ℕ)
    → Links prev next a l
    → Member b l
    → z ≢ head
    → Apart z l
    → z ≢ next b
next-Apart prev next a [] b z h i ne d e = i
next-Apart prev next a (x ∷ []) b z h (inl same) ne d e = ne (e ∙ ap next same ∙ h.2.0)
next-Apart prev next a (x ∷ y ∷ ys) b z h (inl same) ne d e = d.1.0 (e ∙ ap next same ∙ h.2.0)
next-Apart prev next a (x ∷ xs) b z h (inr i) ne d e = next-Apart prev next x xs b z h.2 i ne d.1 e

unlink_first :
    (c : Cache) (a x : ℕ) (xs : List ℕ)
    → Distinct (x ∷ xs)
    → Apart a (x ∷ xs)
    → Apart head (x ∷ xs)
    → Links c.prev c.next a (x ∷ xs)
    → Links (unlink x c).prev (unlink x c).next a xs
unlink_first c a x [] d da dh h = ground (arith, h)
unlink_first c a x (y ∷ ys) d da dh h =
    let here : Links (unlink x c).prev (unlink x c).next y ys =
      Links-ap c.prev c.next (unlink x c).prev (unlink x c).next y ys (ground (arith, h.1, da.1.0))
        (All-apart (λ z. (unlink x c).next z ≡ c.next z) a ys da.1.1
          (λ z e. ground (arith, e, h.1)))
        (All-apart (λ z. (unlink x c).prev z ≡ c.prev z) y ys d.1.0
          (λ z e. ground (arith, e, h.2.0)))
        (ground (arith, h.2.0, dh.1.0)) h.2.2 in
    (ground (arith, h.1, h.2.0), ground (arith, h.1, h.2.0), here)

-- A buffer that is taken out.
pub Links-unlink :
    (c : Cache) (b a : ℕ) (l : List ℕ)
    → Member b l
    → Distinct l
    → Apart a l
    → Apart head l
    → Links c.prev c.next a l
    → Links (unlink b c).prev (unlink b c).next a (remove b l)
Links-unlink c b a [] i d da dh h = absurd i
Links-unlink c b a (x ∷ xs) i d da dh h = elim (ℕ_discrete x b) [
  | yes same ↦
      let gone : remove b (x ∷ xs) ≡ xs = ground (arith, same) in
      subst (λ l. Links (unlink b c).prev (unlink b c).next a l) (sym gone)
        (subst (λ z. Links (unlink z c).prev (unlink z c).next a xs) same
          (unlink_first c a x xs d da dh h))
  | no ne ↦
      let later : Member b xs = elim i [ inl e ↦ absurd (ne (sym e)) | inr k ↦ k ] in
      let left_apart = prev-Apart c.prev c.next x xs b a h.2 later da.0 da.1 in
      let right_apart = next-Apart c.prev c.next x xs b x h.2 later (λ e. dh.0 (sym e)) d.0 in
      let stays : remove b (x ∷ xs) ≡ x ∷ remove b xs = ground (arith, ne) in
      subst (λ l. Links (unlink b c).prev (unlink b c).next a l) (sym stays)
        (
          ground (arith, h.0, left_apart),
          ground (arith, h.1, right_apart),
          Links-unlink c b x xs later d.1 d.0 dh.1 h.2,
        )
]

pub Apart-remove : (a b : ℕ) (l : List ℕ) → Apart a l → Apart a (remove b l)
Apart-remove a b [] h = h
Apart-remove a b (x ∷ xs) h = ground (arith, h, Apart-remove a b xs)

pub Distinct-remove : (b : ℕ) (l : List ℕ) → Distinct l → Distinct (remove b l)
Distinct-remove b [] d = d
Distinct-remove b (x ∷ xs) d = ground (arith, d, Apart-remove x b xs, Distinct-remove b xs)

pub remove-Apart : (b : ℕ) (l : List ℕ) → Distinct l → Apart b (remove b l)
remove-Apart b [] d = d
remove-Apart b (x ∷ xs) d = elim (ℕ_discrete x b) [
  | yes same ↦
      let gone : remove b (x ∷ xs) ≡ xs = ground (arith, same) in
      subst (Apart b) (sym gone) (subst (λ z. Apart z xs) same d.0)
  | no ne ↦ ground (arith, ne, remove-Apart b xs d.1)
]

pub length-remove : (b : ℕ) (l : List ℕ) → Member b l → suc (length (remove b l)) ≡ length l
length-remove b [] i = absurd i
length-remove b (x ∷ xs) i = ground (arith, i, length-remove b xs)

pub Member-remove : (b x : ℕ) (l : List ℕ) → Member x l → x ≢ b → Member x (remove b l)
Member-remove b x [] i ne = i
Member-remove b x (y ∷ ys) i ne = ground (arith, i, ne, Member-remove b x ys)

pub remove-Member : (b x : ℕ) (l : List ℕ) → Member x (remove b l) → Member x l
remove-Member b x [] i = i
remove-Member b x (y ∷ ys) i = ground (arith, i, remove-Member b x ys)

pub Member-Apart : (a b : ℕ) (l : List ℕ) → Apart a l → Member b l → a ≢ b
Member-Apart a b [] h i e = i
Member-Apart a b (x ∷ xs) h (inl same) e = h.0 (e ∙ same)
Member-Apart a b (x ∷ xs) h (inr i) e = Member-Apart a b xs h.1 i e
