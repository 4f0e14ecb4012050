-- ===== src/Kernel/Cache.antt =====
-- kernel/bio.c: the cache of disk blocks. A buffer is known by its index in bcache.buf, and bcache.head by
-- `head`; `prev` and `next` are the links of the list. What happens under bcache.lock is one step.
mod Ring
mod Search
mod Inv
mod Calls
mod Sound
mod Coherent
mod Tests
use operating_system_lab_pro.Prelude.{
  ℕ, zero, suc, ◌+◌, ◌-◌, ◌*◌, ◌%◌, ◌^◌, Bool, true, false, not, ◌&&◌, List, [], ◌∷◌, Option, none,
  some, ◌==◌, if◌then◌else◌,
}

abbrev pub nbuf : ℕ
nbuf = 30

abbrev pub head : ℕ
head = 30

-- `lock` is the process that has the sleep lock.
pub record Buf : Type 0 where
  pub valid : Bool
  pub dev : ℕ
  pub blockno : ℕ
  pub refcnt : ℕ
  pub lock : Option ℕ
  pub contents : List ℕ

pub record Cache : Type 0 where
  pub buf : ℕ → Buf
  pub prev : ℕ → ℕ
  pub next : ℕ → ℕ

abbrev pub put {ℓ} : {A : Type ℓ} → (ℕ → A) → ℕ → A → ℕ → A
put f i v j = if j == i then v else f j

abbrev pub set_buf : ℕ → Buf → Cache → Cache
set_buf b v c = record c { buf = put c.buf b v }

-- The four assignments that put `b` behind the head.
abbrev pub insert : ℕ → Cache → Cache
insert b c =
    let c1 : Cache = record c { next = put c.next b (c.next head) } in
    let c2 : Cache = record c1 { prev = put c1.prev b head } in
    let c3 : Cache = record c2 { prev = put c2.prev (c2.next head) b } in
    record c3 { next = put c3.next head b }

-- The two that take it out of the list.
abbrev pub unlink : ℕ → Cache → Cache
unlink b c =
    let c1 : Cache = record c { prev = put c.prev (c.next b) (c.prev b) } in
    record c1 { next = put c1.next (c1.prev b) (c1.next b) }

-- The loop of `binit`, the last `k` buffers.
unfoldable pub insert_all : (k : ℕ) → Cache → Cache
insert_all zero c = c
insert_all (suc k) c = insert_all k (insert (nbuf - suc k) c)

-- The cache before `binit` is all zeros.
abbrev pub zero_cache : Cache
zero_cache = record {
  buf = λ b. record { valid = false; dev = 0; blockno = 0; refcnt = 0; lock = none; contents = [] };
  prev = λ b. 0;
  next = λ b. 0;
}

unfoldable pub binit : Cache
unfolding insert_all
binit =
    insert_all nbuf
      (record zero_cache { prev = put (λ b. 0) head head; next = put (λ b. 0) head head })

-- The loops of `bget`, along `link` from `b` on: the first buffer that `p` holds of.
unfoldable pub scan : (link : ℕ → ℕ) (p : ℕ → Bool) (fuel b : ℕ) → Option ℕ
scan link p zero b = none
scan link p (suc fuel) b =
    let rest = scan link p fuel (link b) in if b == head then none else if p b then some b else rest

abbrev pub is_block : Cache → (dev blockno b : ℕ) → Bool
is_block c dev blockno b = (c.buf b).dev == dev && (c.buf b).blockno == blockno

abbrev pub is_unused : Cache → ℕ → Bool
is_unused c b = (c.buf b).refcnt == 0

abbrev pub uint_size : ℕ
uint_size = 2 ^ 32

abbrev pub add_ref : Buf → Buf
add_ref b = record b { refcnt = (b.refcnt + 1) % uint_size }

abbrev pub drop_ref : Buf → Buf
drop_ref b = record b { refcnt = (b.refcnt + uint_size - 1) % uint_size }

abbrev pub recycle : (dev blockno : ℕ) → Buf → Buf
recycle d n b = record b { dev = d; blockno = n; valid = false; refcnt = 1 }

-- `bget` up to `acquiresleep`; `none` is the panic.
unfoldable pub bget : (dev blockno : ℕ) → Cache → Option (ℕ × Cache)
unfolding scan
bget dev blockno c = elim (scan c.next (is_block c dev blockno) (nbuf + 1) (c.next head)) [
  | some b ↦ some (b, set_buf b (add_ref (c.buf b)) c)
  | none ↦ elim (scan c.prev (is_unused c) (nbuf + 1) (c.prev head)) [
    | some b ↦ some (b, set_buf b (recycle dev blockno (c.buf b)) c)
    | none ↦ none
  ]
]

-- `acquiresleep` of a buffer's lock when it gets it; `none` is to sleep.
unfoldable pub lock_buf : (pid b : ℕ) → Cache → Option Cache
lock_buf pid b c = elim (c.buf b).lock [
  | none ↦ some (set_buf b (record (c.buf b) { lock = some pid }) c)
  | some holder ↦ none
]

abbrev pub holds : (pid : ℕ) → Buf → Bool
holds pid b = elim b.lock [ none ↦ false | some holder ↦ holder == pid ]

-- `virtio_disk_rw` for a read and for a write.
module _ {D : Type 0} (read_disk : D → (dev blockno : ℕ) → List ℕ)
    (write_disk : D → (dev blockno : ℕ) → List ℕ → D) where
  -- `bread` after `bget`, when the lock is held.
  unfoldable pub fill_buf : D → (b : ℕ) → Cache → Cache
  fill_buf disk b c =
      let v = c.buf b in
      if v.valid
      then c
      else set_buf b (record v { contents = read_disk disk v.dev v.blockno; valid = true }) c

  unfoldable pub bwrite : (pid b : ℕ) → Cache → D → Option D
  bwrite pid b c disk =
      let v = c.buf b in
      if not (holds pid v) then none else some (write_disk disk v.dev v.blockno v.contents)

-- `brelse` after `releasesleep`.
unfoldable pub drop_buf : (b : ℕ) → Cache → Cache
drop_buf b c =
    let c1 = set_buf b (drop_ref (c.buf b)) c in
    if (c1.buf b).refcnt == 0 then insert b (unlink b c1) else c1

-- The panic, or the cache after `releasesleep`.
unfoldable pub unlock_buf : (pid b : ℕ) → Cache → Option Cache
unlock_buf pid b c =
    if not (holds pid (c.buf b))
    then none
    else some (set_buf b (record (c.buf b) { lock = none }) c)

unfoldable pub brelse : (pid b : ℕ) → Cache → Option Cache
unfolding drop_buf unlock_buf
brelse pid b c = elim (unlock_buf pid b c) [ none ↦ none | some c1 ↦ some (drop_buf b c1) ]

unfoldable pub bpin : ℕ → Cache → Cache
bpin b c = set_buf b (add_ref (c.buf b)) c

unfoldable pub bunpin : ℕ → Cache → Cache
bunpin b c = set_buf b (drop_ref (c.buf b)) c
