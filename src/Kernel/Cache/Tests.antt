-- ===== src/Kernel/Cache/Tests.antt =====
-- A new cache, from which one block is got twice.
use operating_system_lab_pro.Prelude.{ℕ, ◌≡◌, refl, List, [], ◌∷◌, Option, none, some, arith}
use operating_system_lab_pro.Kernel.Cache.{Cache, binit, zero_cache, bget, drop_buf}
use operating_system_lab_pro.Kernel.Cache.Inv.{binit-IsCache}
use operating_system_lab_pro.Kernel.Cache.Calls.{Gets, bget-Gets, Ref, Reach, boot, gets}
use operating_system_lab_pro.Kernel.Cache.Coherent.{IsCoherent, one_copy}

abbrev read_disk : List ℕ → (dev blockno : ℕ) → List ℕ
read_disk disk dev blockno = blockno ∷ disk

abbrev write_disk : List ℕ → (dev blockno : ℕ) → List ℕ → List ℕ
write_disk disk dev blockno contents = contents

abbrev cache_of : Option (ℕ × Cache) → Cache
cache_of none = zero_cache
cache_of (some (b, c)) = c

abbrev once : Cache
once = cache_of (bget 1 5 binit)

abbrev twice : Cache
twice = cache_of (bget 1 5 once)

-- The buffer of index 0 is the least recently used one at first, and the block stays in it.
takes_last : bget 1 5 binit ≡ some (0, once)
unfolding bget binit
takes_last = refl

finds_it : bget 1 5 once ≡ some (0, twice)
unfolding bget binit
finds_it = refl

-- Another block goes to the next buffer, and one that is released is at the front.
takes_next : bget 1 6 twice ≡ some (1, cache_of (bget 1 6 twice))
unfolding bget binit
takes_next = refl

moves_to_front : (drop_buf 0 once).next 30 ≡ 0
unfolding drop_buf bget binit
moves_to_front = refl

abbrev five : Ref
five = record { buf = 0; dev = 1; blockno = 5 }

reaches : Reach read_disk write_disk twice (five ∷ five ∷ [])
reaches =
    gets once (five ∷ []) 1 5 0 twice
      (gets binit [] 1 5 0 once boot (λ e. ground (arith, e)) (omega arith) takes_last)
      (λ e. ground (arith, e)) (omega arith) finds_it

one_copy_example : IsCoherent twice (five ∷ five ∷ [])
one_copy_example = one_copy read_disk write_disk twice (five ∷ five ∷ []) reaches

bget-Gets_example : Gets binit binit-IsCache.0 binit-IsCache.1 1 5 (bget 1 5 binit)
bget-Gets_example = bget-Gets binit binit-IsCache.0 binit-IsCache.1 1 5
