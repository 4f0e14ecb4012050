-- ===== src/Kernel/Pipe/Tests.antt =====
-- Runs of the pipe, and the theorems about it at concrete inputs: the counters are about to wrap.
use operating_system_lab_pro.Prelude.{
  ℕ, ◌≡◌, refl, true, false, List, [], ◌∷◌, arith, replicate, pos, set,
}
use operating_system_lab_pro.Kernel.FlatMemory.{flat}
use operating_system_lab_pro.Kernel.Pipe.{Pipe, pipewrite, piperead, returns}
use operating_system_lab_pro.Kernel.Pipe.Ring.{IsPipe, contents}
use operating_system_lab_pro.Kernel.Pipe.Refine.{
  Agrees, enqueue, receive, pipewrite-Agrees, piperead-Agrees,
}

-- A pipe that holds two bytes; both its counters are about to wrap.
abbrev two_bytes : Pipe
two_bytes = record {
  bytes = set (set (replicate 512 0) 510 7) 511 8;
  nread = 4294967294;
  nwrite = 0;
  readopen = true;
  writeopen = true;
}

-- The theorems at this pipe.
two_bytes-IsPipe : IsPipe two_bytes
two_bytes-IsPipe = record {
  size = refl;
  read_small = omega arith;
  write_small = omega arith;
  fits = omega arith;
}

abbrev memory : List ℕ
memory = 1 ∷ 2 ∷ 3 ∷ []

written : (pipewrite flat false 0 3 memory two_bytes).2 ≡ returns (pos 3)
unfolding pipewrite
written = refl

taken : (piperead flat false 0 3 memory two_bytes).0 ≡ 7 ∷ 8 ∷ 3 ∷ []
unfolding piperead
taken = refl

pipewrite-Agrees_example :
    Agrees flat
      (pipewrite flat false 0 3 memory two_bytes)
      (enqueue flat false 0 3 0 memory (7 ∷ 8 ∷ []))
unfolding contents
pipewrite-Agrees_example = pipewrite-Agrees flat false 0 3 memory two_bytes two_bytes-IsPipe

piperead-Agrees_example :
    Agrees flat
      (piperead flat false 0 3 memory two_bytes)
      (receive flat false true 0 3 memory (7 ∷ 8 ∷ []))
unfolding contents
piperead-Agrees_example = piperead-Agrees flat false 0 3 memory two_bytes two_bytes-IsPipe
