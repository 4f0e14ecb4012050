-- ===== src/Kernel/Log.antt =====
-- kernel/log.c, the write-ahead log. A disk block is a list of bytes, but for the header block, which is
-- a record. `bread` reads the buffer cache and `bwrite` writes one block of the disk, at once or not at
-- all, so an operation is the list of its disk writes and the cache that it leaves.
pub mod Writes
pub mod Crash
pub mod Commit
pub mod Absorb
pub mod Space
mod Tests
use operating_system_lab_pro.Prelude.{
  ℕ, zero, suc, ◌+◌, ◌-◌, ◌*◌, Bool, true, false, ◌||◌, List, [], ◌∷◌, ◌++◌, Option, none, some,
  take, drop, set, ltb, leb, ◌==◌, if◌then◌else◌,
}

abbrev pub max_op_blocks : ℕ
max_op_blocks = 10

abbrev pub log_blocks : ℕ
log_blocks = 30

-- `struct logheader`; `block` is an array of `log_blocks` numbers, of which the first `n` count.
pub record Header : Type 0 where
  pub n : ℕ
  pub block : List ℕ

-- The blocks of a disk, or what the buffers show of them; the header block is apart.
pub record Blocks : Type 0 where
  pub head : Header
  pub content : ℕ → List ℕ

abbrev pub update : (ℕ → List ℕ) → ℕ → List ℕ → ℕ → List ℕ
update f b x c = if c == b then x else f c

abbrev pub put : Blocks → ℕ → List ℕ → Blocks
put s b x = record s { content = update s.content b x }

-- A `bwrite`.
pub data Write : Type 0 where
  block_write : ℕ → List ℕ → Write
  head_write : Header → Write

abbrev pub apply_write : Write → Blocks → Blocks
apply_write (block_write b x) s = put s b x
apply_write (head_write h) s = record s { head = h }

unfoldable pub apply_writes : List Write → Blocks → Blocks
apply_writes [] s = s
apply_writes (w ∷ ws) s = apply_writes ws (apply_write w s)

-- The numbers of the logged blocks.
abbrev pub logged : Header → List ℕ
logged h = take h.n h.block

-- The loop of `write_log` from `tail` on, for the block numbers that are left.
unfoldable pub write_log : (start tail : ℕ) → List ℕ → Blocks → List Write × Blocks
write_log start tail [] cache = ([], cache)
write_log start tail (b ∷ bs) cache =
    let x = cache.content b in
    let (ws, cache') = write_log start (tail + 1) bs (put cache (start + tail + 1) x) in
    (block_write (start + tail + 1) x ∷ ws, cache')

-- The loop of `install_trans`, but for the pins.
unfoldable pub install_trans : (start tail : ℕ) → List ℕ → Blocks → List Write × Blocks
install_trans start tail [] cache = ([], cache)
install_trans start tail (b ∷ bs) cache =
    let x = cache.content (start + tail + 1) in
    let (ws, cache') = install_trans start (tail + 1) bs (put cache b x) in
    (block_write b x ∷ ws, cache')

-- The entries of the header's buffer beyond the first `n` stay as they were.
unfoldable pub write_head : Header → Blocks → Write × Blocks
write_head lh cache =
    let h : Header = record { n = lh.n; block = logged lh ++ drop lh.n cache.head.block } in
    (head_write h, record cache { head = h })

abbrev pub emptied : Header → Header
emptied h = record h { n = 0 }

-- `commit`, from the cache and the log header in memory: the disk writes, in order, and both.
unfoldable pub commit : (start : ℕ) → Header → Blocks → List Write × Blocks × Header
unfolding write_log write_head install_trans
commit start lh cache =
    if lh.n == 0
    then ([], cache, lh)
    else let (logging, c1) = write_log start 0 (logged lh) cache in
      let (committing, c2) = write_head lh c1 in
      let (installing, c3) = install_trans start 0 (logged lh) c2 in
      let (erasing, c4) = write_head (emptied lh) c3 in
      (logging ++ (committing ∷ (installing ++ (erasing ∷ []))), c4, emptied lh)

-- `read_head`, into the array of the header in memory.
unfoldable pub read_head : Header → Blocks → Header
read_head lh cache = record {
  n = cache.head.n;
  block = logged cache.head ++ drop cache.head.n lh.block;
}

-- `recover_from_log` after a start, when the cache shows the disk: its disk writes.
unfoldable pub recover_from_log : (start : ℕ) → Header → (disk : Blocks) → List Write
unfolding read_head install_trans write_head
recover_from_log start lh disk =
    let lh' = read_head lh disk in
    let (installing, cache) = install_trans start 0 (logged lh') disk in
    let (erasing, cache') = write_head (emptied lh') cache in installing ++ (erasing ∷ [])

-- `struct log`, but for `start` and `dev`.
pub record Log : Type 0 where
  pub outstanding : ℕ
  pub committing : Bool
  pub lh : Header

-- A round of the loop of `begin_op`; `none` is the sleep.
unfoldable pub begin_op : Log → Option Log
begin_op l =
    if l.committing || ltb log_blocks (l.lh.n + (l.outstanding + 1) * max_op_blocks)
    then none
    else some (record l { outstanding = l.outstanding + 1 })

-- `end_op` up to `commit`, and whether it commits; `none` is the panic. A call in progress makes it, so
-- `outstanding` is not 0.
unfoldable pub end_op : Log → Option (Log × Bool)
end_op l =
    if l.committing
    then none
    else let left = l.outstanding - 1 in
      if l.outstanding == 1
      then some (record l { outstanding = left; committing = true }, true)
      else some (record l { outstanding = left }, false)

-- `end_op` after `commit`, which has emptied the log.
abbrev pub commit_done : Log → Log
commit_done l = record l { committing = false; lh = emptied l.lh }

-- Where `b` is in the list, or the end of it.
unfoldable pub index_of : (b i : ℕ) → List ℕ → ℕ
index_of b i [] = i
index_of b i (c ∷ cs) = let rest = index_of b (i + 1) cs in if c == b then i else rest

-- `log_write`, without the pin; `none` is a panic.
unfoldable pub log_write : Log → (blockno : ℕ) → Option Log
unfolding index_of
log_write l blockno =
    if leb log_blocks l.lh.n || ltb l.outstanding 1
    then none
    else let i = index_of blockno 0 (logged l.lh) in
      let block = set l.lh.block i blockno in
      some
        (record l { lh = record { n = if i == l.lh.n then l.lh.n + 1 else l.lh.n; block = block } })
