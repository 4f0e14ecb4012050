-- ===== src/Sched/Smp/Timely.antt =====
-- What time does to a process: it arrives, works for its burst, and finishes; and the runs from a fresh
-- table.
use operating_system_lab_pro.Prelude.{
  ℕ, zero, suc, ◌+◌, ◌≤◌, ◌≡◌, ◌≢◌, ◌⊎◌, inr, refl, true, false, arith, pos, dec_ℤ, eq_ℤ,
}
use operating_system_lab_pro.Sched.Smp.{ready, running, finished, Process, eligible, started}
use operating_system_lab_pro.Sched.Smp.Tick.{work}

-- At time `now`, with the latest arrival `last`; `Extra` is what an algorithm needs besides.
pub record Timely (Extra : Process → Type 0) (last now : ℕ) (p : Process) : Type 0 where
  pub extra : Extra p
  pub arrives : p.arrival_time ≤ last
  -- What is left to do is a part of the burst, and the rest was done after the arrival.
  pub left :
      p.state ≢ finished
      → (r : ℕ) × (p.remaining_time ≡ pos (suc r))
        × (suc r ≤ p.burst_time)
        × ((suc r ≡ p.burst_time) ⊎ (p.arrival_time + p.burst_time ≤ now + suc r))
  pub here : p.state ≡ running → p.arrival_time ≤ now
  -- The turnaround time is at least the burst.
  pub over : p.state ≡ finished → p.arrival_time + p.burst_time ≤ p.completion_time

module _ (Extra : Process → Type 0) (last now : ℕ) (p : Process) (v : Timely Extra last now p) where
  pub Timely-later : Timely Extra last (now + 1) p
  Timely-later = record {
    extra = v.extra;
    arrives = v.arrives;
    left = λ live. let (r, e, le, h) = v.left live in (r, e, le, omega arith);
    here = λ e. omega (arith, v.here e);
    over = v.over;
  }

  pub Timely-started :
      (i : ℕ)
      → eligible now p ≡ true
      → Extra (started p i now)
      → Timely Extra last now (started p i now)
  Timely-started i fit e = record {
    extra = e;
    arrives = v.arrives;
    left = λ live. v.left (λ f. ground arith);
    here = λ e. ground arith;
    over = λ f. absurd (cc);
  }

  module _ (run! : p.state ≡ running) where
    -- A tick of work that is not the last.
    module _ (more : eq_ℤ (dec_ℤ p.remaining_time) (pos 0) ≡ false) where
      left_later :
          (r : ℕ) × (dec_ℤ p.remaining_time ≡ pos (suc r))
          × (suc r ≤ p.burst_time)
          × ((suc r ≡ p.burst_time) ⊎ (p.arrival_time + p.burst_time ≤ now + 1 + suc r))
      left_later =
          let (r, e, le, h) = v.left (λ f. absurd (cc)) in
          let arrived = v.here run! in later r e le h
        where
          later :
              (r : ℕ)
              → p.remaining_time ≡ pos (suc r)
              → suc r ≤ p.burst_time
              → (suc r ≡ p.burst_time) ⊎ (p.arrival_time + p.burst_time ≤ now + suc r)
              → (r : ℕ) × (dec_ℤ p.remaining_time ≡ pos (suc r))
                × (suc r ≤ p.burst_time)
                × ((suc r ≡ p.burst_time) ⊎ (p.arrival_time + p.burst_time ≤ now + 1 + suc r))
          later zero e le h = absurd (ground arith)
          later (suc r) e le h = (r, ground arith, omega arith, inr (omega (arith, v.here run!)))

      pub Timely-works :
          Extra (record p { remaining_time = dec_ℤ p.remaining_time })
          → Timely Extra last (now + 1) (record p { remaining_time = dec_ℤ p.remaining_time })
      Timely-works e = record {
        extra = e;
        arrives = v.arrives;
        left = λ live. left_later;
        here = λ e. omega (arith, v.here run!);
        over = λ f. absurd (cc);
      }

      pub Timely-yields :
          Extra (record p { remaining_time = dec_ℤ p.remaining_time; state = ready })
          → Timely Extra last
              (now + 1)
              (record p { remaining_time = dec_ℤ p.remaining_time; state = ready })
      Timely-yields e = record {
        extra = e;
        arrives = v.arrives;
        left = λ live. left_later;
        here = λ e. absurd (cc);
        over = λ f. absurd (cc);
      }

      pub work-works : work p ≡ suc (work (record p { remaining_time = dec_ℤ p.remaining_time }))
      work-works =
          let (r, e, le, h) = left_later in
          let (r', e', le', h') = v.left (λ f. absurd (cc)) in ground arith

      pub work-yields :
          work p ≡ suc (work (record p { remaining_time = dec_ℤ p.remaining_time; state = ready }))
      work-yields =
          let (r, e, le, h) = left_later in
          let (r', e', le', h') = v.left (λ f. absurd (cc)) in ground arith

    -- The last one.
    module _ (last! : eq_ℤ (dec_ℤ p.remaining_time) (pos 0) ≡ true) where
      abbrev ended : Process
      ended = record p {
        remaining_time = dec_ℤ p.remaining_time;
        state = finished;
        completion_time = now + 1;
      }

      pub Timely-ends : Extra ended → Timely Extra last (now + 1) ended
      Timely-ends e =
          let (r, e', le, h) = v.left (λ f. absurd (cc)) in
          let zero_left : r ≡ 0 = ground arith in
          record {
            extra = e;
            arrives = v.arrives;
            left = λ live. absurd (live refl);
            here = λ e. absurd (cc);
            over = λ f. omega (arith, v.here run!);
          }

      pub work-ends : work p ≡ suc (work ended)
      work-ends = let (r, e', le, h) = v.left (λ f. absurd (cc)) in ground arith
