-- ===== src/Kernel/Log/Commit.antt =====
-- A commit is atomic.
use operating_system_lab_pro.Prelude.{
  ℕ, suc, ◌+◌, ◌-◌, ◌≤◌, ◌<◌, ◌≡◌, ◌≢◌, ◌⊎◌, inl, inr, refl, sym, ap, ap₂, ◌∙◌, false, List, [],
  ◌∷◌, ◌++◌, All, arith, length, length-take, take, take-append_le, take-append_ge, take-nil, drop,
  leb, if◌then◌else◌, dec_lt, ℕ_discrete,
}
use mathlib.Core.Path.{subst}
use operating_system_lab_pro.Kernel.Log.{
  log_blocks, Header, Blocks, Write, head_write, apply_writes, logged, write_log, install_trans,
  write_head, commit,
}
use operating_system_lab_pro.Kernel.Log.Writes.{
  IsFree, member, apply_writes-append, write_log-cache, logging, homing, Holds, length-logging,
  logging-head, logging_outside, logging-Holds, write_log-writes, install_trans-writes,
  take-logging,
}
use operating_system_lab_pro.Kernel.Log.Crash.{
  crashed, recovered, restarts, new, Committed, Clean, take-take_append, home_crash,
  restarts-Settled, restarts-Clean,
}

module _ (start : ℕ) (lh : Header) (cache disk : Blocks) (full : lh.n ≤ length lh.block)
    (fits : lh.n ≤ log_blocks) (free : All (IsFree start) (logged lh))
    (clean : disk.head.n ≡ 0) where
  abbrev bs : List ℕ
  bs = logged lh

  abbrev x : ℕ → List ℕ
  x = cache.content

  size : length bs ≡ lh.n
  size = omega (arith, length-take lh.n lh.block)

  abbrev c1 : Blocks
  c1 = (write_log start 0 bs cache).1

  -- The header of the transaction.
  commit_head : Header
  commit_head = record { n = lh.n; block = logged lh ++ drop lh.n c1.head.block }

  abbrev c3 : Blocks
  c3 = (install_trans start 0 bs (record c1 { head = commit_head })).1

  erase_head : Header
  erase_head = record { n = 0; block = c3.head.block }

  logging_writes : (write_log start 0 bs cache).0 ≡ logging start x 0 bs
  logging_writes = write_log-writes start x 0 bs cache free (omega (arith, size)) (λ c f. refl)

  c1-Holds : Holds start x 0 bs c1.content
  c1-Holds =
      subst (λ c. Holds start x 0 bs c.content)
        (sym (write_log-cache start 0 bs cache ∙ ap (λ ws. apply_writes ws cache) logging_writes))
        (logging-Holds start x 0 bs cache)

  installing_writes :
      (install_trans start 0 bs (record c1 { head = commit_head })).0 ≡ homing start x bs
  installing_writes =
      install_trans-writes start x 0 bs (record c1 { head = commit_head }) free
        (omega (arith, size)) c1-Holds

  abbrev tail_writes : List Write
  tail_writes = homing start x bs ++ (head_write erase_head ∷ [])

  commit-writes :
      lh.n ≢ 0
      → (commit start lh cache).0 ≡ logging start x 0 bs ++ (head_write commit_head ∷ tail_writes)
  unfolding commit write_head commit_head erase_head
  commit-writes ne =
      let run : (commit start lh cache).0
          ≡ (write_log start 0 bs cache).0
            ++ (head_write commit_head
                ∷ ((install_trans start 0 bs (record c1 { head = commit_head })).0
                    ++ (head_write erase_head ∷ []))) =
        ground arith in
      run
      ∙ ap₂ (λ l h. l ++ (head_write commit_head ∷ (h ++ (head_write erase_head ∷ []))))
          logging_writes installing_writes

  commit_empty : lh.n ≡ 0 → (commit start lh cache).0 ≡ []
  unfolding commit
  commit_empty e = ground arith

  small : length bs ≤ log_blocks
  small = omega (arith, size)

  -- The disk before the header's write: only the log has changed.
  before_commit :
      (k : ℕ)
      → Clean start bs disk.content x free small disk.content
          (crashed k (logging start x 0 bs) disk)
  before_commit k =
      subst (λ ws. Clean start bs disk.content x free small disk.content (apply_writes ws disk))
        (sym (take-logging start x k 0 bs))
        (record {
          empty = ap (λ (h : Header). h.n) (logging-head start x 0 (take k bs) disk) ∙ clean;
          blocks = λ c f.
              logging_outside start x 0 (take k bs) disk c
                (omega (arith, f, small, length-take k bs));
        })

  after_commit :
      Committed start bs disk.content x free small
        (record (apply_writes (logging start x 0 bs) disk) { head = commit_head })
  unfolding commit_head
  after_commit = record {
    count = sym size;
    blocks = take-take_append lh.n (logged lh) (drop lh.n c1.head.block) (sym size);
    holds = logging-Holds start x 0 bs disk;
    rest = λ c f e. logging_outside start x 0 bs disk c (omega (arith, f, small));
  }

  -- What the disk holds after a crash that lets `k` writes of the commit through, any number of
  -- crashes during recoveries, and a recovery that ends.
  abbrev End : (k : ℕ) → Blocks → Type 0
  End k t =
      (t.head.n ≡ 0)
      × ((c : ℕ)
          → IsFree start c
          → t.content c ≡ (
              if leb k lh.n
              then disk.content c
              else if member c (logged lh)
              then cache.content c
              else disk.content c))

  abbrev start_again : Header → List ℕ → Blocks → Blocks
  start_again lh0 ks d = recovered start lh0 (restarts start lh0 ks d)

  clean-End :
      (k : ℕ) (t : Blocks)
      → (k ≤ lh.n) ⊎ (lh.n ≡ 0)
      → Clean start bs disk.content x free small disk.content t
      → End k t
  clean-End k t h c = (
    c.empty,
    λ b f. elim (ℕ_discrete lh.n 0) [
      | yes none ↦
          let nothing : member b (logged lh) ≡ false = ap (λ n. member b (take n lh.block)) none in
          c.blocks b f ∙ ground (arith, nothing)
      | no some! ↦ c.blocks b f ∙ ground (arith, h)
    ],
  )

  new-End :
      (k : ℕ) (t : Blocks)
      → lh.n < k
      → Clean start bs disk.content x free small (new start bs disk.content x free small) t
      → End k t
  new-End k t lt c = (c.empty, λ b f. c.blocks b f ∙ ground arith)

  late_crash :
      (j : ℕ) (lh0 : Header) (ks : List ℕ)
      → End (lh.n + suc j) (
          start_again lh0 ks (
            crashed
              (lh.n + suc j)
              (logging start x 0 bs ++ (head_write commit_head ∷ tail_writes))
              disk))
  unfolding apply_writes erase_head
  late_crash j lh0 ks =
      let d : Blocks = record (apply_writes (logging start x 0 bs) disk) { head = commit_head } in
      let split : crashed (lh.n + suc j)
            (logging start x 0 bs ++ (head_write commit_head ∷ tail_writes)) disk
          ≡ crashed j tail_writes d =
        ap (λ ws. apply_writes ws disk)
          (take-append_ge (lh.n + suc j) (suc j) (logging start x 0 bs)
            (head_write commit_head ∷ tail_writes)
            (omega (arith, size, length-logging start x 0 bs)))
        ∙ apply_writes-append (logging start x 0 bs) (head_write commit_head ∷ take j tail_writes)
            disk in
      new-End (lh.n + suc j)
        (start_again lh0 ks (
          crashed (lh.n + suc j) (logging start x 0 bs ++ (head_write commit_head ∷ tail_writes))
            disk))
        (omega arith)
        (restarts-Settled start bs disk.content x free small lh0 ks
          (crashed (lh.n + suc j) (logging start x 0 bs ++ (head_write commit_head ∷ tail_writes))
            disk)
          (subst
            (λ t.
              Committed start bs disk.content x free small t
              ⊎ Clean start bs disk.content x free small (new start bs disk.content x free small) t)
            (sym split)
            (home_crash start bs disk.content x free small lh0 j d erase_head refl after_commit)))

  settle :
      (k : ℕ) (lh0 : Header) (ks : List ℕ) (ws : List Write)
      → (k ≤ lh.n) ⊎ (lh.n ≡ 0)
      → Clean start bs disk.content x free small disk.content (crashed k ws disk)
      → End k (start_again lh0 ks (crashed k ws disk))
  settle k lh0 ks ws h c =
      clean-End k (start_again lh0 ks (crashed k ws disk)) h (
        restarts-Clean start bs disk.content x free small lh0 disk.content ks (crashed k ws disk) c)

  -- If the disk's log is empty and the transaction fits and leaves the log's own blocks alone: after a
  -- crash that lets the first `k` disk writes of `commit` through, then any number of starts whose
  -- recoveries crash, and at last one that ends, the log is empty, and outside the log all blocks are
  -- as before the commit, if the header had not been written, or all logged ones have the content of the cache.
  pub commit_atomic :
      (k : ℕ) (lh0 : Header) (ks : List ℕ)
      → End k (start_again lh0 ks (crashed k (commit start lh cache).0 disk))
  unfolding apply_writes
  commit_atomic k lh0 ks = elim (ℕ_discrete lh.n 0) [
    | yes none ↦
        subst (λ ws. End k (start_again lh0 ks (crashed k ws disk))) (sym (commit_empty none))
          (settle k lh0 ks [] (inr none) (
            subst
              (λ ws. Clean start bs disk.content x free small disk.content (apply_writes ws disk))
              (sym (take-nil k)) (record { empty = clean; blocks = λ c f. refl })))
    | no some! ↦
        subst (λ ws. End k (start_again lh0 ks (crashed k ws disk))) (sym (commit-writes some!))
          (elim (dec_lt lh.n k) [
            | yes late ↦
                let e : lh.n + suc (k - lh.n - 1) ≡ k = omega arith in
                subst
                  (λ n. End n (
                    start_again lh0 ks (
                      crashed n (logging start x 0 bs ++ (head_write commit_head ∷ tail_writes))
                        disk)))
                  e (late_crash (k - lh.n - 1) lh0 ks)
            | no early ↦
                settle k lh0 ks (logging start x 0 bs ++ (head_write commit_head ∷ tail_writes))
                  (inl (omega arith))
                  (subst
                    (λ ws.
                      Clean start bs disk.content x free small disk.content (apply_writes ws disk))
                    (sym (
                      take-append_le k (logging start x 0 bs) (head_write commit_head ∷ tail_writes)
                        (omega (arith, size, length-logging start x 0 bs))))
                    (before_commit k))
          ])
  ]
