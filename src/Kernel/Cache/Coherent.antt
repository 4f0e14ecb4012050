-- ===== src/Kernel/Cache/Coherent.antt =====
-- References to cached blocks, in all caches that the calls lead to.
use operating_system_lab_pro.Prelude.{ℕ, ◌<◌, ◌≡◌, ◌≢◌, refl, List, arith}
use operating_system_lab_pro.Kernel.Cache.{nbuf, Cache, set_buf, fill_buf, bpin, bunpin}
use operating_system_lab_pro.Kernel.Cache.Calls.{
  Ref, Taken, Reach, boot, gets, locks, fills, edits, unlocks, drops, pins, unpins,
}
use operating_system_lab_pro.Kernel.Cache.Sound.{
  Held, IsSound, All-Taken, calm-IsSound, more-IsSound, less-IsSound, bget-IsSound,
  drop_buf-IsSound, boot-IsSound, lock_buf-IsSound, unlock_buf-IsSound,
}

-- No block of a device other than 0 stands in two of all the buffers, and what is referred to keeps its block.
pub record IsCoherent (c : Cache) (refs : List Ref) : Type 0 where
  pub unique :
      (b b' : ℕ)
      → b < nbuf
      → b' < nbuf
      → (c.buf b).dev ≢ 0
      → (c.buf b').dev ≡ (c.buf b).dev
      → (c.buf b').blockno ≡ (c.buf b).blockno
      → b' ≡ b
  pub kept :
      (r : Ref) (left : List Ref)
      → Taken r refs left
      → (r.buf < nbuf) × ((c.buf r.buf).dev ≡ r.dev) × ((c.buf r.buf).blockno ≡ r.blockno)

module _ {D : Type 0} (read_disk : D → (dev blockno : ℕ) → List ℕ)
    (write_disk : D → (dev blockno : ℕ) → List ℕ → D) where
  fill_buf-IsSound :
      (c : Cache) (refs : List Ref) (disk : D) (b : ℕ)
      → IsSound c refs
      → IsSound (fill_buf read_disk write_disk disk b c) refs
  unfolding fill_buf
  fill_buf-IsSound c refs disk b h =
      calm-IsSound c refs h (fill_buf read_disk write_disk disk b c) (ground arith) (ground arith)
        (λ a. ground arith) (λ a. ground arith) (λ a. ground arith)

  pub Reach-IsSound :
      (c : Cache) (refs : List Ref) → Reach read_disk write_disk c refs → IsSound c refs
  unfolding bpin bunpin
  Reach-IsSound _ _ boot = boot-IsSound
  Reach-IsSound _ _ (gets c refs dev blockno b c' h used few e) =
      bget-IsSound c refs (Reach-IsSound c refs h) dev blockno b c' used few e
  Reach-IsSound _ _ (locks c refs pid b c' h e) =
      lock_buf-IsSound c refs pid b c' e (Reach-IsSound c refs h)
  Reach-IsSound _ _ (fills c refs disk b h) =
      fill_buf-IsSound c refs disk b (Reach-IsSound c refs h)
  Reach-IsSound _ _ (edits c refs b contents h) =
      calm-IsSound c refs (Reach-IsSound c refs h)
        (set_buf b (record (c.buf b) { contents = contents }) c) refl refl (λ a. ground arith)
        (λ a. ground arith) (λ a. ground arith)
  Reach-IsSound _ _ (unlocks c refs pid b c' h e) =
      unlock_buf-IsSound c refs pid b c' e (Reach-IsSound c refs h)
  Reach-IsSound _ _ (drops c r refs refs' h t) =
      drop_buf-IsSound c r refs refs' t (Reach-IsSound c refs h)
  Reach-IsSound _ _ (pins c r refs refs' h t few) =
      let sound = Reach-IsSound c refs h in
      more-IsSound c refs sound r (All-Taken (Held c) r refs refs' t sound.held).0 few
  Reach-IsSound _ _ (unpins c r refs refs' h t) =
      less-IsSound c refs (Reach-IsSound c refs h) r refs' t

  -- However processes get, lock, fill, change, unlock, release, pin and unpin buffers, with blocks of devices other than 0:
  -- no such block is ever in two buffers, whether anybody refers to them or not, and as long as
  -- a reference to a buffer is out, the buffer has the block that it was got for.
  pub one_copy :
      (c : Cache) (refs : List Ref) → Reach read_disk write_disk c refs → IsCoherent c refs
  one_copy c refs h =
      let sound = Reach-IsSound c refs h in
      record {
        unique = sound.cache.unique;
        kept = λ r left t.
            let k = (All-Taken (Held c) r refs left t sound.held).0 in (k.low, k.dev, k.blockno);
      }
