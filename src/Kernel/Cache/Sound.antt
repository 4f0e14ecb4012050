-- ===== src/Kernel/Cache/Sound.antt =====
-- What each call keeps of the cache and of the references to it.
use operating_system_lab_pro.Prelude.{
  ℕ, suc, ◌+◌, ◌<◌, ◌≤◌, ◌≡◌, ◌≢◌, refl, sym, ap, ◌∙◌, false, List, [], ◌∷◌, none, some, ◌==◌,
  if◌then◌else◌, arith, length, All, All-imp, Bool-cases, inl, inr,
}
use mathlib.Core.Path.{subst}
use operating_system_lab_pro.Kernel.Cache.{
  nbuf, Buf, Cache, insert, unlink, binit, set_buf, add_ref, drop_ref, recycle, is_block, uint_size,
  bget, lock_buf, unlock_buf, drop_buf,
}
use operating_system_lab_pro.Kernel.Cache.Ring.{remove}
use operating_system_lab_pro.Kernel.Cache.Inv.{
  IsCache, binit_buf, binit-IsCache, same-IsCache, recycle-IsCache, front-IsCache,
}
use operating_system_lab_pro.Kernel.Cache.Calls.{
  hit, recycled, panic, bget-Gets, Ref, uses, Taken, here, later,
}

-- The buffer of a reference has its block.
pub record Held (c : Cache) (r : Ref) : Type 0 where
  pub low : r.buf < nbuf
  pub dev : (c.buf r.buf).dev ≡ r.dev
  pub blockno : (c.buf r.buf).blockno ≡ r.blockno
  pub used : r.dev ≢ 0

pub record IsSound (c : Cache) (refs : List Ref) : Type 0 where
  pub order : List ℕ
  pub cache : IsCache c order
  pub counts : (b : ℕ) → b < nbuf → (c.buf b).refcnt ≡ uses b refs
  pub held : All (Held c) refs
  pub few : length refs < uint_size

uses-le : (b : ℕ) (refs : List Ref) → uses b refs ≤ length refs
uses-le b [] = omega arith
uses-le b (r ∷ rs) = ground (arith, uses-le b rs)

uses-Taken :
    (r : Ref) (refs refs' : List Ref) (b : ℕ)
    → Taken r refs refs'
    → uses b refs ≡ (if r.buf == b then 1 else 0) + uses b refs'
uses-Taken r _ _ b (here rs) = refl
uses-Taken r _ _ b (later x rs rs' t) = ground (arith, uses-Taken r rs rs' b t)

length-Taken :
    (r : Ref) (refs refs' : List Ref) → Taken r refs refs' → length refs ≡ suc (length refs')
length-Taken r _ _ (here rs) = refl
length-Taken r _ _ (later x rs rs' t) = ap suc (length-Taken r rs rs' t)

pub All-Taken :
    (P : Ref → Type 0) (r : Ref) (refs refs' : List Ref)
    → Taken r refs refs'
    → All P refs
    → P r × All P refs'
All-Taken P r _ _ (here rs) a = (a.0, a.1)
All-Taken P r _ _ (later x rs rs' t) a = let (p, q) = All-Taken P r rs rs' t a.1 in (p, (a.0, q))

-- A buffer that nobody refers to is in no reference.
unused_apart :
    (P Q : Ref → Type 0) (b : ℕ) (refs : List Ref)
    → uses b refs ≡ 0
    → ((r : Ref) → r.buf ≢ b → P r → Q r)
    → All P refs
    → All Q refs
unused_apart P Q b [] e f a = a
unused_apart P Q b (r ∷ rs) e f a =
    (f r (λ s. ground (arith, e, s)) a.0, unused_apart P Q b rs (ground (arith, e)) f a.1)

module _ (c : Cache) (refs : List Ref) (h : IsSound c refs) where
  same-Held :
      (c' : Cache) (rs : List Ref)
      → ((b : ℕ) → (c'.buf b).dev ≡ (c.buf b).dev)
      → ((b : ℕ) → (c'.buf b).blockno ≡ (c.buf b).blockno)
      → All (Held c) rs
      → All (Held c') rs
  same-Held c' rs dev block = All-imp (Held c) (Held c') rs (λ r k. record {
    low = k.low;
    dev = dev r.buf ∙ k.dev;
    blockno = block r.buf ∙ k.blockno;
    used = k.used;
  })

  pub calm-IsSound :
      (c' : Cache)
      → c'.prev ≡ c.prev
      → c'.next ≡ c.next
      → ((b : ℕ) → (c'.buf b).dev ≡ (c.buf b).dev)
      → ((b : ℕ) → (c'.buf b).blockno ≡ (c.buf b).blockno)
      → ((b : ℕ) → (c'.buf b).refcnt ≡ (c.buf b).refcnt)
      → IsSound c' refs
  calm-IsSound c' p n dev block ref = record {
    order = h.order;
    cache = same-IsCache c c' h.order p n dev block h.cache;
    counts = λ b low. ref b ∙ h.counts b low;
    held = same-Held c' refs dev block h.held;
    few = h.few;
  }

  -- One more reference to a buffer that has the block.
  pub more-IsSound :
      (r : Ref)
      → Held c r
      → length refs + 1 < uint_size
      → IsSound (set_buf r.buf (add_ref (c.buf r.buf)) c) (r ∷ refs)
  more-IsSound r k few =
      let c' = set_buf r.buf (add_ref (c.buf r.buf)) c in
      let dev : (b : ℕ) → (c'.buf b).dev ≡ (c.buf b).dev = λ b. ground arith in
      let block : (b : ℕ) → (c'.buf b).blockno ≡ (c.buf b).blockno = λ b. ground arith in
      record {
        order = h.order;
        cache = same-IsCache c c' h.order refl refl dev block h.cache;
        counts = λ b low. ground (arith, h.counts b low, uses-le b refs, few);
        held = same-Held c' (r ∷ refs) dev block (k, h.held);
        few = omega (arith, few);
      }

  -- A buffer that nobody uses gets a block that is in no buffer.
  recycle-IsSound :
      (r : Ref)
      → r.buf < nbuf
      → r.dev ≢ 0
      → length refs + 1 < uint_size
      → ((a : ℕ) → a < nbuf → is_block c r.dev r.blockno a ≡ false)
      → (c.buf r.buf).refcnt ≡ 0
      → IsSound (set_buf r.buf (recycle r.dev r.blockno (c.buf r.buf)) c) (r ∷ refs)
  recycle-IsSound r low used few absent free =
      let c' = set_buf r.buf (recycle r.dev r.blockno (c.buf r.buf)) c in
      let nobody : uses r.buf refs ≡ 0 = sym (h.counts r.buf low) ∙ free in
      record {
        order = h.order;
        cache = recycle-IsCache c h.order r.buf r.dev r.blockno h.cache absent;
        counts = λ b below. ground (arith, h.counts b below, nobody);
        held = (
          record { low = low; dev = ground arith; blockno = ground arith; used = used },
          unused_apart (Held c) (Held c') r.buf refs nobody
              (λ x ne k. record {
                low = k.low;
                dev = ground (arith, ne, k.dev);
                blockno = ground (arith, ne, k.blockno);
                used = k.used;
              })
              h.held,
        );
        few = omega (arith, few);
      }

  pub bget-IsSound :
      (dev blockno b : ℕ) (c' : Cache)
      → dev ≢ 0
      → length refs + 1 < uint_size
      → bget dev blockno c ≡ some (b, c')
      → IsSound c' (record { buf = b; dev = dev; blockno = blockno } ∷ refs)
  bget-IsSound dev blockno b c' used few e = elim (bget-Gets c h.order h.cache dev blockno) [
    | hit a low same at ↦
        let r : Ref = record { buf = a; dev = dev; blockno = blockno } in
        let k : Held c r = record {
          low = low;
          dev = ground (arith, same);
          blockno = ground (arith, same);
          used = used;
        } in
        let name : a ≡ b = ground (arith, e, at) in
        let after : set_buf a (add_ref (c.buf a)) c ≡ c' = ground (arith, e, at) in
        subst (λ z. IsSound c' (record { buf = z; dev = dev; blockno = blockno } ∷ refs)) name
          (subst (λ x. IsSound x (r ∷ refs)) after (more-IsSound r k few))
    | recycled a low absent place free at ↦
        let r : Ref = record { buf = a; dev = dev; blockno = blockno } in
        let name : a ≡ b = ground (arith, e, at) in
        let after : set_buf a (recycle dev blockno (c.buf a)) c ≡ c' = ground (arith, e, at) in
        subst (λ z. IsSound c' (record { buf = z; dev = dev; blockno = blockno } ∷ refs)) name
          (subst (λ x. IsSound x (r ∷ refs)) after (recycle-IsSound r low used few absent free))
    | panic absent all_used at ↦ absurd (ground (arith, e, at))
  ]

  -- A reference less, wherever the buffer goes in the list.
  module _ (r : Ref) (refs' : List Ref) (t : Taken r refs refs') where
    abbrev less : Cache
    less = set_buf r.buf (drop_ref (c.buf r.buf)) c

    less_counts : (b : ℕ) → b < nbuf → (less.buf b).refcnt ≡ uses b refs'
    less_counts b low =
        ground (arith, h.counts b low, uses-Taken r refs refs' b t, uses-le b refs, h.few)

    pub less-IsSound : IsSound less refs'
    less-IsSound =
        let dev : (b : ℕ) → (less.buf b).dev ≡ (c.buf b).dev = λ b. ground arith in
        let block : (b : ℕ) → (less.buf b).blockno ≡ (c.buf b).blockno = λ b. ground arith in
        let kept = All-Taken (Held c) r refs refs' t h.held in
        record {
          order = h.order;
          cache = same-IsCache c less h.order refl refl dev block h.cache;
          counts = less_counts;
          held = same-Held less refs' dev block kept.1;
          few = omega (arith, length-Taken r refs refs' t, h.few);
        }

front-IsSound :
    (c : Cache) (refs : List Ref) (b : ℕ)
    → b < nbuf
    → IsSound c refs
    → IsSound (insert b (unlink b c)) refs
front-IsSound c refs b low h = record {
  order = b ∷ remove b h.order;
  cache = front-IsCache c h.order b h.cache low;
  counts = h.counts;
  held =
      All-imp (Held c) (Held (insert b (unlink b c))) refs
        (λ r k. record { low = k.low; dev = k.dev; blockno = k.blockno; used = k.used }) h.held;
  few = h.few;
}

pub drop_buf-IsSound :
    (c : Cache) (r : Ref) (refs refs' : List Ref)
    → Taken r refs refs'
    → IsSound c refs
    → IsSound (drop_buf r.buf c) refs'
unfolding drop_buf
drop_buf-IsSound c r refs refs' t h =
    let less = set_buf r.buf (drop_ref (c.buf r.buf)) c in
    let sound = less-IsSound c refs h r refs' t in
    let low = (All-Taken (Held c) r refs refs' t h.held).0.low in
    elim (Bool-cases ((less.buf r.buf).refcnt == 0)) [
      | inl last_one ↦
          subst (λ x. IsSound x refs') (ground (arith, last_one))
            (front-IsSound less refs' r.buf low sound)
      | inr others ↦ subst (λ x. IsSound x refs') (ground (arith, others)) sound
    ]

pub boot-IsSound : IsSound binit []
boot-IsSound =
    let (l, cache) = binit-IsCache in
    record {
      order = l;
      cache = cache;
      counts = λ b low. ap (λ (x : Buf). x.refcnt) (binit_buf b);
      held = ground arith;
      few = omega arith;
    }

pub lock_buf-IsSound :
    (c : Cache) (refs : List Ref) (pid b : ℕ) (c' : Cache)
    → lock_buf pid b c ≡ some c'
    → IsSound c refs
    → IsSound c' refs
unfolding lock_buf
lock_buf-IsSound c refs pid b c' e h =
    let after : set_buf b (record (c.buf b) { lock = some pid }) c ≡ c' = ground (arith, e) in
    subst (λ x. IsSound x refs) after
      (calm-IsSound c refs h (set_buf b (record (c.buf b) { lock = some pid }) c) refl refl
        (λ a. ground arith) (λ a. ground arith) (λ a. ground arith))

pub unlock_buf-IsSound :
    (c : Cache) (refs : List Ref) (pid b : ℕ) (c' : Cache)
    → unlock_buf pid b c ≡ some c'
    → IsSound c refs
    → IsSound c' refs
unfolding unlock_buf
unlock_buf-IsSound c refs pid b c' e h =
    let after : set_buf b (record (c.buf b) { lock = none }) c ≡ c' = ground (arith, e) in
    subst (λ x. IsSound x refs) after
      (calm-IsSound c refs h (set_buf b (record (c.buf b) { lock = none }) c) refl refl
        (λ a. ground arith) (λ a. ground arith) (λ a. ground arith))
