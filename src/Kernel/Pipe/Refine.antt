-- ===== src/Kernel/Pipe/Refine.antt =====
-- The pipe as a bounded first-in first-out queue of bytes: what `pipewrite` and `piperead` do, without
-- the ring and its wrapping counters.
use operating_system_lab_pro.Prelude.{
  ℕ, zero, suc, ◌+◌, ◌≡◌, ◌≢◌, refl, sym, ap, Bool, true, false, not, ◌&&◌, ◌||◌, List, [], get_or,
  drop, ◌∷◌, ◌++◌, arith, length, ◌==◌, if◌then◌else◌, ℤ, pos, minus_one,
}
use mathlib.Core.Path.{subst}
use operating_system_lab_pro.Kernel.UserMemory.{UserMemory}
use operating_system_lab_pro.Kernel.Pipe.{
  pipe_size, Pipe, is_full, is_empty, put_byte, next_byte, drop_byte, Outcome, returns, sleeps,
  byte_in, write_from, pipewrite, read_from, piperead,
}
use operating_system_lab_pro.Kernel.Pipe.Ring.{
  IsPipe, contents, full_iff, empty_iff, put-IsPipe, contents-put, drop-IsPipe, contents-drop,
}

module _ (um : UserMemory) where
  open um use {Mem, copyin, copyout}

  -- A writer appends a byte at a time, until the queue holds 512.
  unfoldable pub enqueue : (closed : Bool) → (addr k i : ℕ) → Mem → List ℕ → Mem × List ℕ × Outcome
  enqueue closed addr zero i m q = (m, q, returns (pos i))
  enqueue closed addr (suc k) i m q =
      let (m', bytes, ok) = copyin m 1 (addr + i) in
      let rest = enqueue closed addr k (i + 1) m' (q ++ (byte_in um bytes ∷ [])) in
      if closed
      then (m, q, returns minus_one)
      else if length q == pipe_size
      then (m, q, sleeps i)
      else if ok
      then rest
      else (m', q, returns (pos i))

  -- A reader takes bytes off the front; a byte whose copy fails stays in the queue.
  unfoldable pub dequeue : (addr k i : ℕ) → Mem → List ℕ → Mem × List ℕ × ℤ
  dequeue addr zero i m q = (m, q, pos i)
  dequeue addr (suc k) i m q =
      let (m', ok) = copyout m (addr + i) (get_or q 0 0 ∷ []) in
      let rest = dequeue addr k (i + 1) m' (drop 1 q) in
      if length q == 0
      then (m, q, pos i)
      else if ok
      then rest
      else (m', q, if i == 0 then minus_one else pos i)

  -- A reader of an empty queue waits while there is a writer.
  unfoldable pub receive :
      (killed writeopen : Bool) → (addr n : ℕ) → Mem → List ℕ → Mem × List ℕ × Outcome
  receive killed writeopen addr n m q =
      if length q == 0 && writeopen
      then if killed then (m, q, returns minus_one) else (m, q, sleeps 0)
      else let (m', q', r) = dequeue addr n 0 m q in (m', q', returns r)

  -- The same memory, the same bytes and the same outcome, and again a pipe.
  pub record Agrees {R : Type 0} (r : Mem × Pipe × R) (s : Mem × List ℕ × R) : Type 0 where
    pub valid : IsPipe r.1
    pub same_memory : r.0 ≡ s.0
    pub same_bytes : contents r.1 ≡ s.1
    pub same_result : r.2 ≡ s.2

  rests :
      {R : Type 0} (m : Mem) (pi : Pipe) (o : R) → IsPipe pi → Agrees (m, pi, o) (m, contents pi, o)
  rests m pi o v = record { valid = v; same_memory = refl; same_bytes = refl; same_result = refl }

  Agrees-if :
      {R : Type 0} (c c' : Bool) {r r' : Mem × Pipe × R} {s s' : Mem × List ℕ × R}
      → c ≡ c'
      → (c' ≡ true → Agrees r s)
      → (c' ≡ false → Agrees r' s')
      → Agrees (if c then r else r') (if c' then s else s')
  Agrees-if true true e both neither = both refl
  Agrees-if true false e both neither = absurd (ground (arith, e))
  Agrees-if false true e both neither = absurd (ground (arith, e))
  Agrees-if false false e both neither = neither refl

  write_from-Agrees :
      (killed : Bool) (addr k i : ℕ) (m : Mem) (pi : Pipe)
      → IsPipe pi
      → Agrees
          (write_from um killed addr k i m pi)
          (enqueue (not pi.readopen || killed) addr k i m (contents pi))
  unfolding write_from enqueue
  write_from-Agrees killed addr zero i m pi v = rests m pi (returns (pos i)) v
  write_from-Agrees killed addr (suc k) i m pi v =
      let (m', bytes, ok) = copyin m 1 (addr + i) in
      let b = byte_in um bytes in
      let closed = not pi.readopen || killed in
      Agrees-if closed closed refl (λ _. rests m pi (returns minus_one) v)
        (λ _.
          Agrees-if (is_full pi) (length (contents pi) == pipe_size) (full_iff pi v)
            (λ _. rests m pi (sleeps i) v)
            (λ e.
              let room : length (contents pi) ≢ pipe_size = ground (arith, e) in
              let ih =
                write_from-Agrees killed addr k (i + 1) m' (put_byte pi b)
                  (put-IsPipe pi v b room) in
              Agrees-if ok ok refl
                (λ _.
                  subst
                    (λ q.
                      Agrees (write_from um killed addr k (i + 1) m' (put_byte pi b))
                        (enqueue closed addr k (i + 1) m' q))
                    (contents-put pi v b room) ih)
                (λ _. rests m' pi (returns (pos i)) v)))

  -- For every pipe, `pipewrite` leaves the memory, the bytes in the pipe and the outcome that appending
  -- to a queue of at most 512 bytes gives, and the counters and the data are again those of a pipe.
  pub pipewrite-Agrees :
      (killed : Bool) (addr n : ℕ) (m : Mem) (pi : Pipe)
      → IsPipe pi
      → Agrees
          (pipewrite um killed addr n m pi)
          (enqueue (not pi.readopen || killed) addr n 0 m (contents pi))
  unfolding pipewrite
  pipewrite-Agrees killed addr n m pi v = write_from-Agrees killed addr n 0 m pi v

  read_from-Agrees :
      (addr k i : ℕ) (m : Mem) (pi : Pipe)
      → IsPipe pi
      → Agrees (read_from um addr k i m pi) (dequeue addr k i m (contents pi))
  unfolding read_from dequeue
  read_from-Agrees addr zero i m pi v = rests m pi (pos i) v
  read_from-Agrees addr (suc k) i m pi v =
      let (m', ok) = copyout m (addr + i) (next_byte pi ∷ []) in
      let failed = if i == 0 then minus_one else pos i in
      Agrees-if (is_empty pi) (length (contents pi) == 0) (empty_iff pi v)
        (λ _. rests m pi (pos i) v)
        (λ e.
          let some! : length (contents pi) ≢ 0 = ground (arith, e) in
          let ih = read_from-Agrees addr k (i + 1) m' (drop_byte pi) (drop-IsPipe pi v some!) in
          subst
            (λ q.
              Agrees
                (if ok then read_from um addr k (i + 1) m' (drop_byte pi) else (m', pi, failed))
                (if (copyout m (addr + i) (get_or q 0 0 ∷ [])).1
                  then dequeue addr k (i + 1) (copyout m (addr + i) (get_or q 0 0 ∷ [])).0
                      (drop 1 q)
                  else ((copyout m (addr + i) (get_or q 0 0 ∷ [])).0, q, failed)))
            (sym (contents-drop pi v some!))
            (Agrees-if ok ok refl (λ _. ih)
              (λ _. record {
                valid = v;
                same_memory = refl;
                same_bytes = contents-drop pi v some!;
                same_result = refl;
              })))

  -- For every pipe, `piperead` leaves the memory, the bytes in the pipe and the outcome that taking bytes
  -- from the front of a queue gives, and the counters and the data are again those of a pipe.
  pub piperead-Agrees :
      (killed : Bool) (addr n : ℕ) (m : Mem) (pi : Pipe)
      → IsPipe pi
      → Agrees (piperead um killed addr n m pi) (receive killed pi.writeopen addr n m (contents pi))
  unfolding piperead receive
  piperead-Agrees killed addr n m pi v =
      let h = read_from-Agrees addr n 0 m pi v in
      Agrees-if (is_empty pi && pi.writeopen) (length (contents pi) == 0 && pi.writeopen)
        (ap (λ c. c && pi.writeopen) (empty_iff pi v))
        (λ _.
          Agrees-if killed killed refl (λ _. rests m pi (returns minus_one) v)
            (λ _. rests m pi (sleeps 0) v))
        (λ _. record {
          valid = h.valid;
          same_memory = h.same_memory;
          same_bytes = h.same_bytes;
          same_result = ap returns h.same_result;
        })
