-- ===== src/Kernel/Pipe.antt =====
-- kernel/pipe.c: `pipewrite`, `piperead` and `pipeclose`, each from the acquisition of the lock, or the
-- return from a `sleep`, to its return or the next `sleep`. The wakeups are left out.
pub mod Ring
pub mod Refine
mod Tests
use operating_system_lab_pro.Prelude.{
  ℕ, zero, suc, ◌+◌, ◌-◌, ◌%◌, Bool, true, false, not, ◌&&◌, ◌||◌, List, [], ◌∷◌, get_or, set,
  replicate, ◌==◌, if◌then◌else◌, ℤ, pos, minus_one,
}
use operating_system_lab_pro.Kernel.UserMemory.{UserMemory, overwrite}

abbrev pub pipe_size : ℕ
pipe_size = 512

-- 2 ^ 32: `nread` and `nwrite` are `uint`.
abbrev pub uint_size : ℕ
uint_size = 4294967296

-- `struct pipe`; `bytes` is `data`.
pub record Pipe : Type 0 where
  pub bytes : List ℕ
  pub nread : ℕ
  pub nwrite : ℕ
  pub readopen : Bool
  pub writeopen : Bool

-- What `pipealloc` sets up, in a page that holds `bytes`.
abbrev pub fresh_pipe : List ℕ → Pipe
fresh_pipe bytes = record {
  bytes = bytes;
  nread = 0;
  nwrite = 0;
  readopen = true;
  writeopen = true;
}

-- `pipeclose`, and whether the pipe's page is freed.
unfoldable pub pipeclose : Pipe → (writable : Bool) → Pipe × Bool
pipeclose pi writable =
    let pi' : Pipe =
      if writable then record pi { writeopen = false } else record pi { readopen = false } in
    (pi', not pi'.readopen && not pi'.writeopen)

-- A return value, or a sleep; `i` bytes have been copied when `pipewrite` sleeps.
pub data Outcome : Type 0 where
  returns : ℤ → Outcome
  sleeps : (i : ℕ) → Outcome

abbrev pub is_full : Pipe → Bool
is_full pi = pi.nwrite == (pi.nread + pipe_size) % uint_size

abbrev pub is_empty : Pipe → Bool
is_empty pi = pi.nread == pi.nwrite

-- `pi->data[pi->nwrite++ % PIPESIZE] = ch;`
abbrev pub put_byte : Pipe → ℕ → Pipe
put_byte pi ch = record pi {
  bytes = set pi.bytes (pi.nwrite % pipe_size) ch;
  nwrite = (pi.nwrite + 1) % uint_size;
}

-- `ch = pi->data[pi->nread % PIPESIZE];`
abbrev pub next_byte : Pipe → ℕ
next_byte pi = get_or pi.bytes (pi.nread % pipe_size) 0

abbrev pub drop_byte : Pipe → Pipe
drop_byte pi = record pi { nread = (pi.nread + 1) % uint_size }

module _ (um : UserMemory) where
  open um use {Mem, copyin, copyout}

  -- The byte that a `copyin` of one byte leaves in a variable that held 0.
  abbrev pub byte_in : List ℕ → ℕ
  byte_in bytes = get_or bytes 0 0

  -- The loop of `pipewrite` from `i` on, with `k` bytes to go, until it returns or sleeps.
  unfoldable pub write_from : (killed : Bool) → (addr k i : ℕ) → Mem → Pipe → Mem × Pipe × Outcome
  write_from killed addr zero i m pi = (m, pi, returns (pos i))
  write_from killed addr (suc k) i m pi =
      let (m', bytes, ok) = copyin m 1 (addr + i) in
      let rest = write_from killed addr k (i + 1) m' (put_byte pi (byte_in bytes)) in
      if not pi.readopen || killed
      then (m, pi, returns minus_one)
      else if is_full pi
      then (m, pi, sleeps i)
      else if ok
      then rest
      else (m', pi, returns (pos i))

  unfoldable pub pipewrite : (killed : Bool) → (addr n : ℕ) → Mem → Pipe → Mem × Pipe × Outcome
  unfolding write_from
  pipewrite killed addr n m pi = write_from killed addr n 0 m pi

  -- The second loop of `piperead` from `i` on, with `k` bytes to go.
  unfoldable pub read_from : (addr k i : ℕ) → Mem → Pipe → Mem × Pipe × ℤ
  read_from addr zero i m pi = (m, pi, pos i)
  read_from addr (suc k) i m pi =
      let (m', ok) = copyout m (addr + i) (next_byte pi ∷ []) in
      let rest = read_from addr k (i + 1) m' (drop_byte pi) in
      if is_empty pi
      then (m, pi, pos i)
      else if ok
      then rest
      else (m', pi, if i == 0 then minus_one else pos i)

  unfoldable pub piperead : (killed : Bool) → (addr n : ℕ) → Mem → Pipe → Mem × Pipe × Outcome
  unfolding read_from
  piperead killed addr n m pi =
      if is_empty pi && pi.writeopen
      then if killed then (m, pi, returns minus_one) else (m, pi, sleeps 0)
      else let (m', pi', r) = read_from addr n 0 m pi in (m', pi', returns r)
