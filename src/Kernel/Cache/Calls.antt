-- ===== src/Kernel/Cache/Calls.antt =====
-- Processes that get, use and release buffers, in any order.
use operating_system_lab_pro.Prelude.{
  ℕ, ◌+◌, ◌<◌, ◌≡◌, ◌≢◌, sym, ap, ◌∙◌, true, false, List, [], ◌∷◌, Option, none, some, ◌==◌,
  if◌then◌else◌, arith, length, All, Option-cases, inl, inr,
}
use mathlib.Core.Path.{subst}
use operating_system_lab_pro.Kernel.Cache.{
  nbuf, head, Cache, binit, set_buf, add_ref, recycle, is_block, is_unused, uint_size, scan, bget,
  lock_buf, unlock_buf, fill_buf, drop_buf, bpin, bunpin,
}
use operating_system_lab_pro.Kernel.Cache.Ring.{Member}
use operating_system_lab_pro.Kernel.Cache.Search.{
  first, last, scan-first, scan-last, first-found, first-missing, last-found, last-missing,
}
use operating_system_lab_pro.Kernel.Cache.Inv.{IsCache}

bget_eq :
    (c : Cache) (l : List ℕ) (dev blockno : ℕ)
    → IsCache c l
    → bget dev blockno c ≡ elim (first (is_block c dev blockno) l) [
      | some b ↦ some (b, set_buf b (add_ref (c.buf b)) c)
      | none ↦ elim (last (is_unused c) l) [
        | some b ↦ some (b, set_buf b (recycle dev blockno (c.buf b)) c)
        | none ↦ none
      ]
    ]
unfolding bget
bget_eq c l dev blockno h =
    let size : nbuf + 1 ≡ length l + 1 = omega (arith, h.ring.count) in
    let forth =
      ap (λ k. scan c.next (is_block c dev blockno) k (c.next head)) size
      ∙ scan-first c.prev c.next (is_block c dev blockno) head l h.ring.links h.ring.distinct.0 in
    let back =
      ap (λ k. scan c.prev (is_unused c) k (c.prev head)) size
      ∙ scan-last c.prev c.next (is_unused c) l h.ring.links h.ring.distinct.0 in
    ground (arith, forth, back)

All-Member : (P : ℕ → Type 0) (l : List ℕ) (b : ℕ) → All P l → Member b l → P b
All-Member P [] b a i = absurd i
All-Member P (x ∷ xs) b a (inl e) = subst P (sym e) a.0
All-Member P (x ∷ xs) b a (inr i) = All-Member P xs b a.1 i

module _ (c : Cache) (l : List ℕ) (h : IsCache c l) (dev blockno : ℕ) where
  -- The buffer that has the block, or else the one that was used least recently of those that nobody uses, or else
  -- the panic.
  pub data Gets (result : Option (ℕ × Cache)) : Type 0 where
    hit :
        (b : ℕ)
        → b < nbuf
        → is_block c dev blockno b ≡ true
        → result ≡ some (b, set_buf b (add_ref (c.buf b)) c)
        → Gets result
    recycled :
        (b : ℕ)
        → b < nbuf
        → ((a : ℕ) → a < nbuf → is_block c dev blockno a ≡ false)
        → last (is_unused c) l ≡ some b
        → (c.buf b).refcnt ≡ 0
        → result ≡ some (b, set_buf b (recycle dev blockno (c.buf b)) c)
        → Gets result
    panic :
        ((a : ℕ) → a < nbuf → is_block c dev blockno a ≡ false)
        → ((a : ℕ) → a < nbuf → (c.buf a).refcnt ≢ 0)
        → result ≡ none
        → Gets result

  -- When the links are a ring of all buffers: `bget` returns the buffer that has the block, with one more reference; if
  -- none has it, the least recently used of those without references, the last of them in the list,
  -- which gets the block and one reference; and it panics if there is neither.
  pub bget-Gets : Gets (bget dev blockno c)
  bget-Gets =
      let at = bget_eq c l dev blockno h in
      elim (Option-cases (first (is_block c dev blockno) l)) [
        | inr (b, found) ↦
            let (i, same) = first-found (is_block c dev blockno) l b found in
            hit b (h.ring.only b i) same (ground (arith, at, found))
        | inl missing ↦
            let absent : (a : ℕ) → a < nbuf → is_block c dev blockno a ≡ false = λ a low.
              All-Member (λ b. is_block c dev blockno b ≡ false) l a
                (first-missing (is_block c dev blockno) l missing) (h.ring.all a low) in
            elim (Option-cases (last (is_unused c) l)) [
              | inr (b, found) ↦
                  let (i, free) = last-found (is_unused c) l b found in
                  recycled b (h.ring.only b i) absent found (ground (arith, free))
                    (ground (arith, at, missing, found))
              | inl all_used ↦
                  panic absent
                    (λ a low e.
                      let used =
                        All-Member (λ b. is_unused c b ≡ false) l a
                          (last-missing (is_unused c) l all_used) (h.ring.all a low) in
                      ground (arith, used, e))
                    (ground (arith, at, missing, all_used))
            ]
      ]

-- A reference to a buffer that somebody has, and the block that it is for.
pub record Ref : Type 0 where
  pub buf : ℕ
  pub dev : ℕ
  pub blockno : ℕ

abbrev pub uses : ℕ → List Ref → ℕ
uses b [] = 0
uses b (r ∷ rs) = (if r.buf == b then 1 else 0) + uses b rs

-- One reference less.
pub data Taken (r : Ref) : List Ref → List Ref → Type 0 where
  here : (rs : List Ref) → Taken r (r ∷ rs) rs
  later : (x : Ref) (rs rs' : List Ref) → Taken r rs rs' → Taken r (x ∷ rs) (x ∷ rs')

-- The caches that boot and the calls lead to, with the references that are out; there are never 2 ^ 32 of them.
-- The blocks are those of a device other than 0.
module _ {D : Type 0} (read_disk : D → (dev blockno : ℕ) → List ℕ)
    (write_disk : D → (dev blockno : ℕ) → List ℕ → D) where
  pub data Reach : Cache → List Ref → Type 0 where
    boot : Reach binit []
    gets :
        (c : Cache) (refs : List Ref) (dev blockno b : ℕ) (c' : Cache)
        → Reach c refs
        → dev ≢ 0
        → length refs + 1 < uint_size
        → bget dev blockno c ≡ some (b, c')
        → Reach c' (record { buf = b; dev = dev; blockno = blockno } ∷ refs)
    locks :
        (c : Cache) (refs : List Ref) (pid b : ℕ) (c' : Cache)
        → Reach c refs
        → lock_buf pid b c ≡ some c'
        → Reach c' refs
    fills :
        (c : Cache) (refs : List Ref) (disk : D) (b : ℕ)
        → Reach c refs
        → Reach (fill_buf read_disk write_disk disk b c) refs
    edits :
        (c : Cache) (refs : List Ref) (b : ℕ) (contents : List ℕ)
        → Reach c refs
        → Reach (set_buf b (record (c.buf b) { contents = contents }) c) refs
    unlocks :
        (c : Cache) (refs : List Ref) (pid b : ℕ) (c' : Cache)
        → Reach c refs
        → unlock_buf pid b c ≡ some c'
        → Reach c' refs
    drops :
        (c : Cache) (r : Ref) (refs refs' : List Ref)
        → Reach c refs
        → Taken r refs refs'
        → Reach (drop_buf r.buf c) refs'
    pins :
        (c : Cache) (r : Ref) (refs refs' : List Ref)
        → Reach c refs
        → Taken r refs refs'
        → length refs + 1 < uint_size
        → Reach (bpin r.buf c) (r ∷ refs)
    unpins :
        (c : Cache) (r : Ref) (refs refs' : List Ref)
        → Reach c refs
        → Taken r refs refs'
        → Reach (bunpin r.buf c) refs'
