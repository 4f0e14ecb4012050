-- ===== src/Kernel/Cache/Inv.antt =====
-- What all operations keep of the cache.
use operating_system_lab_pro.Prelude.{
  ℕ, zero, suc, ◌+◌, ◌-◌, ◌<◌, ◌≡◌, ◌≢◌, refl, sym, ap, ◌∙◌, false, List, [], ◌∷◌, arith, length,
  ℕ_discrete, inl, inr,
}
use mathlib.Core.Path.{subst}
use operating_system_lab_pro.Kernel.Cache.{
  nbuf, head, Buf, Cache, put, insert, unlink, insert_all, zero_cache, binit, set_buf, recycle,
  is_block,
}
use operating_system_lab_pro.Kernel.Cache.Ring.{
  Links, Apart, Distinct, Member, remove, Links-insert, Links-unlink, Distinct-remove, remove-Apart,
  length-remove, Member-remove, remove-Member, Apart-remove,
}

-- The links go through all buffers, once each, in the order of `l`.
pub record IsRing (c : Cache) (m : ℕ) (l : List ℕ) : Type 0 where
  pub distinct : Distinct (head ∷ l)
  pub links : Links c.prev c.next head l
  pub count : length l ≡ m
  pub only : (b : ℕ) → Member b l → b < m
  pub all : (b : ℕ) → b < m → Member b l

-- No block stands in two buffers. Device 0 is that of buffers that were never used.
abbrev pub Unique : Cache → Type 0
Unique c =
    (b b' : ℕ)
    → b < nbuf
    → b' < nbuf
    → (c.buf b).dev ≢ 0
    → (c.buf b').dev ≡ (c.buf b).dev
    → (c.buf b').blockno ≡ (c.buf b).blockno
    → b' ≡ b

pub record IsCache (c : Cache) (l : List ℕ) : Type 0 where
  pub ring : IsRing c nbuf l
  pub unique : Unique c

Apart-below : (a : ℕ) (l : List ℕ) → ((b : ℕ) → Member b l → b ≢ a) → Apart a l
Apart-below a [] f = ground arith
Apart-below a (x ∷ xs) f = (λ e. f x (inl refl) (sym e), Apart-below a xs (λ b i. f b (inr i)))

insert-IsRing :
    (c : Cache) (m : ℕ) (l : List ℕ) → m < nbuf → IsRing c m l → IsRing (insert m c) (suc m) (m ∷ l)
insert-IsRing c m l below h =
    let apart : Apart m l = Apart-below m l (λ b i e. omega (arith, h.only b i, e)) in
    record {
      distinct = ((λ e. omega (arith, below, e), h.distinct.0), (apart, h.distinct.1));
      links = Links-insert c m l h.distinct (λ e. omega (arith, below, e)) apart h.links;
      count = ap suc h.count;
      only = λ b i. ground (arith, i, h.only b);
      all = λ b low. elim (ℕ_discrete b m) [
        | yes e ↦ inl e
        | no ne ↦ inr (h.all b (omega (arith, low, ne)))
      ];
    }

insert_all-IsRing :
    (k m : ℕ) (c : Cache) (l : List ℕ)
    → k + m ≡ nbuf
    → IsRing c m l
    → (l' : List ℕ) × IsRing (insert_all k c) nbuf l'
unfolding insert_all
insert_all-IsRing zero m c l sum h = (l, subst (λ n. IsRing c n l) (omega (arith, sum)) h)
insert_all-IsRing (suc k) m c l sum h =
    let place : m ≡ nbuf - suc k = omega (arith, sum) in
    let step = insert-IsRing c m l (omega (arith, sum)) h in
    let moved = subst (λ n. IsRing (insert n c) (suc m) (m ∷ l)) place step in
    insert_all-IsRing k (suc m) (insert (nbuf - suc k) c) (m ∷ l) (omega (arith, sum)) moved

insert_all_buf : (k : ℕ) (c : Cache) (b : ℕ) → (insert_all k c).buf b ≡ c.buf b
unfolding insert_all
insert_all_buf zero c b = refl
insert_all_buf (suc k) c b = insert_all_buf k (insert (nbuf - suc k) c) b

pub binit_buf : (b : ℕ) → binit.buf b ≡ zero_cache.buf b
unfolding binit
binit_buf b =
    insert_all_buf nbuf
      (record zero_cache { prev = put (λ b. 0) head head; next = put (λ b. 0) head head }) b

pub binit-IsCache : (l : List ℕ) × IsCache binit l
unfolding binit
binit-IsCache =
    let c0 : Cache = record zero_cache {
      prev = put (λ b. 0) head head;
      next = put (λ b. 0) head head;
    } in
    let (l, ring) = insert_all-IsRing nbuf 0 c0 [] refl (record {
      distinct = ground arith;
      links = ground arith;
      count = refl;
      only = λ b i. absurd i;
      all = λ b low. omega (arith, low);
    }) in
    (
      l,
      record {
        ring = ring;
        unique = λ b b' low low' used.
            absurd (used (ap (λ (x : Buf). x.dev) (insert_all_buf nbuf c0 b)));
      },
    )

-- A change that leaves the links and the identities of the buffers.
pub same-IsCache :
    (c c' : Cache) (l : List ℕ)
    → c'.prev ≡ c.prev
    → c'.next ≡ c.next
    → ((b : ℕ) → (c'.buf b).dev ≡ (c.buf b).dev)
    → ((b : ℕ) → (c'.buf b).blockno ≡ (c.buf b).blockno)
    → IsCache c l
    → IsCache c' l
same-IsCache c c' l p n dev block h = record {
  ring = record {
    distinct = h.ring.distinct;
    links =
        subst (λ f. Links f c'.next head l) (sym p)
          (subst (λ f. Links c.prev f head l) (sym n) h.ring.links);
    count = h.ring.count;
    only = h.ring.only;
    all = h.ring.all;
  };
  unique = λ b b' low low' used ed eb.
      h.unique b b' low low' (λ e. used (dev b ∙ e)) (sym (dev b') ∙ ed ∙ dev b)
        (sym (block b') ∙ eb ∙ block b);
}

-- A buffer gets a block that is in no buffer.
pub recycle-IsCache :
    (c : Cache) (l : List ℕ) (b dev blockno : ℕ)
    → IsCache c l
    → ((a : ℕ) → a < nbuf → is_block c dev blockno a ≡ false)
    → IsCache (set_buf b (recycle dev blockno (c.buf b)) c) l
recycle-IsCache c l b dev blockno h absent = record {
  ring = record {
    distinct = h.ring.distinct;
    links = h.ring.links;
    count = h.ring.count;
    only = h.ring.only;
    all = h.ring.all;
  };
  unique = λ a a' low low' used ed eb.
      ground (arith, used, ed, eb, h.unique a a' low low', absent a low, absent a' low');
}

-- A buffer moves to the front.
pub front-IsCache :
    (c : Cache) (l : List ℕ) (b : ℕ)
    → IsCache c l
    → b < nbuf
    → IsCache (insert b (unlink b c)) (b ∷ remove b l)
front-IsCache c l b h low =
    let i = h.ring.all b low in
    let ne : b ≢ head = λ e. omega (arith, low, e) in
    let apart = remove-Apart b l h.ring.distinct.1 in
    let heads = Apart-remove head b l h.ring.distinct.0 in
    let distinct = Distinct-remove b l h.ring.distinct.1 in
    record {
      ring = record {
        distinct = ((λ e. ne (sym e), heads), (apart, distinct));
        links =
            Links-insert (unlink b c) b (remove b l) (heads, distinct) ne apart
              (Links-unlink c b head l i h.ring.distinct.1 h.ring.distinct.0 h.ring.distinct.0
                h.ring.links);
        count = length-remove b l i ∙ h.ring.count;
        only = λ a k. elim k [
          | inl e ↦ omega (arith, e, low)
          | inr later ↦ h.ring.only a (remove-Member b a l later)
        ];
        all = λ a below. elim (ℕ_discrete a b) [
          | yes e ↦ inl e
          | no ne ↦ inr (Member-remove b a l (h.ring.all a below) ne)
        ];
      };
      unique = h.unique;
    }
