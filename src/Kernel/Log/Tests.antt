-- ===== src/Kernel/Log/Tests.antt =====
-- A log that starts at block 2, and a transaction that has changed blocks 100 and 1.
use operating_system_lab_pro.Prelude.{
  ℕ, ◌<◌, ◌≡◌, ◌≢◌, set, replicate, refl, [], ◌∷◌, none, some, arith, inl, inr, leb, if◌then◌else◌,
  ◌==◌,
}
use operating_system_lab_pro.Kernel.Log.{
  log_blocks, Header, Blocks, commit, logged, Log, begin_op, end_op, log_write, recover_from_log,
  apply_writes,
}
use operating_system_lab_pro.Kernel.Log.Writes.{IsFree, member}
use operating_system_lab_pro.Kernel.Log.Crash.{crashed, recovered, restarts}
use operating_system_lab_pro.Kernel.Log.Commit.{commit_atomic}
use operating_system_lab_pro.Kernel.Log.Space.{at_start, begins, writes, first_log, no_panic}

abbrev two_blocks : Header
two_blocks = record { n = 2; block = 100 ∷ 1 ∷ 0 ∷ [] }

abbrev no_blocks : Header
no_blocks = record { n = 0; block = 0 ∷ 0 ∷ 0 ∷ [] }

abbrev disk : Blocks
disk = record { head = no_blocks; content = λ b. 0 ∷ [] }

abbrev cache : Blocks
cache = record {
  head = no_blocks;
  content = λ b. if b == 100 then 7 ∷ [] else if b == 1 then 8 ∷ [] else 0 ∷ [];
}

-- A crash after the header's write; then a recovery that writes one block, and one that ends.
abbrev after_crash : Blocks
after_crash =
    recovered 2 no_blocks
      (restarts 2 no_blocks (1 ∷ []) (crashed 4 (commit 2 two_blocks cache).0 disk))

committed_blocks : after_crash.content 1 ≡ 8 ∷ []
unfolding commit recover_from_log apply_writes
committed_blocks = refl

commit_atomic_example :
    (after_crash.head.n ≡ 0)
    × ((c : ℕ)
        → IsFree 2 c
        → after_crash.content c ≡ (
            if leb 4 2
            then disk.content c
            else if member c (logged two_blocks)
            then cache.content c
            else disk.content c))
commit_atomic_example =
    commit_atomic 2 two_blocks cache disk (omega arith) (omega arith)
      (inr (omega arith), (inl (omega arith), tt)) refl 4 no_blocks (1 ∷ [])

abbrev busy_log : Log
busy_log = record first_log { outstanding = 1 }

begun : begin_op first_log ≡ some busy_log
unfolding begin_op
begun = refl

-- Block 100 is written once, and again.
abbrev one_block : Log
one_block = record busy_log { lh = record { n = 1; block = set (replicate log_blocks 0) 0 100 } }

wrote_block : log_write busy_log 100 ≡ some one_block
unfolding log_write
wrote_block = refl

absorbed : log_write one_block 100 ≡ some one_block
unfolding log_write
absorbed = refl

no_panic_example : (◌<◌ 1 10 → (b : ℕ) → log_write one_block b ≢ none) × (end_op one_block ≢ none)
no_panic_example =
    no_panic one_block ((100 ∷ []) ∷ []) 0 (100 ∷ [])
      (writes 0 100 (100 ∷ [])
        (writes 0 100 [] (begins at_start begun) refl (omega arith) wrote_block) refl (omega arith)
        absorbed)
      refl
