-- ===== src/Sched/Smp/Tick.antt =====
-- A cycle's work on every CPU, where the algorithm says what becomes of a process and its CPU.
use operating_system_lab_pro.Prelude.{
  ℕ, zero, suc, ◌+◌, ◌≤◌, ◌<◌, ◌≡◌, ◌≢◌, inl, inr, refl, sym, ap, ◌∙◌, List, Option, none, some,
  arith, length, length-set, get_elem?, get_or-set, set, pos_part, ℕ_discrete, Option-cases, sum_by,
  sum_by-set,
}
use mathlib.Core.Path.{subst}
use operating_system_lab_pro.Sched.Smp.{
  ready, running, finished, Process, Cpu, Machine, idle_cpu, cpu_at,
}
use operating_system_lab_pro.Sched.Smp.Consistent.{Consistent}
use operating_system_lab_pro.Sched.Smp.Update.{updated, keep-Consistent, retire-Consistent}
use operating_system_lab_pro.Sched.Smp.Every.{Every, set-Every}
use operating_system_lab_pro.Sched.Smp.Start.{lt_of_busy}

-- What becomes of a process after a tick: it stays on its CPU, goes back to READY, or finishes.
pub data Fate : Type 0 where
  goes_on : Process → Cpu → Fate
  gives_way : Process → Cpu → Fate
  ends : Process → Cpu → Fate

abbrev pub settle : Fate → Machine → (i r count : ℕ) → Machine × ℕ
settle (goes_on p c) s i r count = (updated s i c r p, count)
settle (gives_way p c) s i r count = (updated s i c r p, count)
settle (ends p c) s i r count = (updated s i c r p, count + 1)

-- The tick of CPU `i`; the number of finished processes.
unfoldable pub tick_one : (Process → Cpu → Fate) → (i : ℕ) → Machine → (count : ℕ) → Machine × ℕ
tick_one fate i s count = elim (cpu_at s i).current [
  | none ↦ (s, count)
  | some r ↦ elim (get_elem? s.procs r) [
    | none ↦ (s, count)
    | some p ↦ settle (fate p (cpu_at s i)) s i r count
  ]
]

-- The CPUs from `i` on, `n` of them.
unfoldable pub tick_all : (Process → Cpu → Fate) → (n i : ℕ) → Machine → (count : ℕ) → Machine × ℕ
unfolding tick_one
tick_all fate zero i s count = (s, count)
tick_all fate (suc n) i s count =
    let (t, count') = tick_one fate i s count in tick_all fate n (i + 1) t count'

-- The ticks that a process still needs.
abbrev pub work : Process → ℕ
work p = elim p.state [
  | ready ↦ pos_part p.remaining_time
  | running ↦ pos_part p.remaining_time
  | finished ↦ 0
]

abbrev pub done : Process → ℕ
done p = elim p.state [ ready ↦ 0 | running ↦ 0 | finished ↦ 1 ]

unfoldable pub total_work : List Process → ℕ
total_work ps = sum_by work ps

unfoldable pub total_done : List Process → ℕ
total_done ps = sum_by done ps

-- A fate that is in order, for a process of which `V now` holds: a tick of work is done, and `V` holds
-- at the next cycle.
pub data IsFair (V : ℕ → Process → Type 0) (now : ℕ) (p : Process) (c : Cpu) (f : Fate)
    : Type 0 where
  on :
      (q : Process) (d : Cpu)
      → f ≡ goes_on q d
      → q.state ≡ running
      → q.cpu_id ≡ p.cpu_id
      → d.current ≡ c.current
      → V (now + 1) q
      → work p ≡ suc (work q)
      → IsFair V now p c f
  back :
      (q : Process) (d : Cpu)
      → f ≡ gives_way q d
      → q.state ≡ ready
      → d.current ≡ none
      → V (now + 1) q
      → work p ≡ suc (work q)
      → IsFair V now p c f
  over :
      (q : Process) (d : Cpu)
      → f ≡ ends q d
      → q.state ≡ finished
      → d.current ≡ none
      → V (now + 1) q
      → work p ≡ suc (work q)
      → IsFair V now p c f

pub record IsLawful (V : ℕ → Process → Type 0) (fate : ℕ → Process → Cpu → Fate) : Type 0 where
  pub later : (now : ℕ) (p : Process) → V now p → V (now + 1) p
  pub fair :
      (now : ℕ) (p : Process) (c : Cpu)
      → V now p
      → p.state ≡ running
      → IsFair V now p c (fate now p c)

module _ (V : ℕ → Process → Type 0) (fate : ℕ → Process → Cpu → Fate) (law : IsLawful V fate)
    (now : ℕ) where
  -- A process when the CPUs below `i` have ticked.
  pub record Mixed (i : ℕ) (p : Process) : Type 0 where
    pub after : V (now + 1) p
    pub before : (c : ℕ) → p.state ≡ running → p.cpu_id ≡ some c → i ≤ c → V now p

  pub record Ticking (i : ℕ) (s : Machine) (count : ℕ) : Type 0 where
    pub consistent : Consistent s
    pub every : Every (Mixed i) s.procs
    pub counted : count ≡ total_done s.procs

  Mixed-next : (i : ℕ) (p : Process) → Mixed i p → Mixed (i + 1) p
  Mixed-next i p m = record { after = m.after; before = λ c r e le. m.before c r e (omega arith) }

  module _ (i : ℕ) (s : Machine) (count : ℕ) (v : Ticking i s count) where
    abbrev next : Machine × ℕ
    next = tick_one (fate now) i s count

    -- What a tick leaves, from `s`: some work done, if CPU `i` was busy.
    pub record Stepped (t : Machine) (count' : ℕ) : Type 0 where
      pub ticking : Ticking (i + 1) t count'
      pub less : total_work t.procs ≤ total_work s.procs
      pub strict : (r : ℕ) → (cpu_at s i).current ≡ some r → total_work t.procs < total_work s.procs
      pub apart : (k : ℕ) → k ≢ i → cpu_at t k ≡ cpu_at s k
      pub num_cpus : length t.cpus ≡ length s.cpus
      pub num_procs : length t.procs ≡ length s.procs

    rest-Mixed : Every (Mixed (i + 1)) s.procs
    rest-Mixed j p e = Mixed-next i p (v.every j p e)

    idle-Stepped : (cpu_at s i).current ≡ none → Stepped s count
    idle-Stepped e = record {
      ticking = record { consistent = v.consistent; every = rest-Mixed; counted = v.counted };
      less = omega arith;
      strict = λ r e'. absurd (cc);
      apart = λ k ne. refl;
      num_cpus = refl;
      num_procs = refl;
    }

    module _ (r : ℕ) (p : Process) (e : (cpu_at s i).current ≡ some r)
        (at : get_elem? s.procs r ≡ some p) (q : Process) (d : Cpu)
        (one_less : work p ≡ suc (work q)) where
      new_work : total_work (set s.procs r q) + 1 ≡ total_work s.procs
      unfolding total_work
      new_work = omega (arith, sum_by-set work s.procs r p q at, one_less)

      new_done : total_done (set s.procs r q) + done p ≡ total_done s.procs + done q
      unfolding total_done
      new_done = sum_by-set done s.procs r p q at

      update-Stepped :
          (count' : ℕ)
          → Consistent (updated s i d r q)
          → Mixed (i + 1) q
          → count' + done p ≡ count + done q
          → Stepped (updated s i d r q) count'
      update-Stepped count' c m eq = record {
        ticking = record {
          consistent = c;
          every = set-Every (Mixed (i + 1)) s.procs r q rest-Mixed m;
          counted = omega (arith, new_done, v.counted);
        };
        less = omega (arith, new_work);
        strict = λ k e'. omega (arith, new_work);
        apart = λ k ne. ground (arith, get_or-set s.cpus i k d idle_cpu);
        num_cpus = length-set s.cpus i d;
        num_procs = length-set s.procs r q;
      }

    next_fate :
        (r : ℕ) (p : Process) (f : Fate)
        → (cpu_at s i).current ≡ some r
        → get_elem? s.procs r ≡ some p
        → fate now p (cpu_at s i) ≡ f
        → next ≡ settle f s i r count
    unfolding tick_one
    next_fate r p f e at same = ground (arith, ap (λ g. settle g s i r count) same)

    abbrev Goal : Machine × ℕ → Type 0
    Goal t = Stepped t.0 t.1

    fair-Stepped :
        (r : ℕ) (p : Process)
        → (cpu_at s i).current ≡ some r
        → get_elem? s.procs r ≡ some p
        → p.state ≡ running
        → p.cpu_id ≡ some i
        → IsFair V now p (cpu_at s i) (fate now p (cpu_at s i))
        → Goal next
    fair-Stepped r p e at run mine (on q d f st cp cu w l) =
        subst Goal (sym (next_fate r p (goes_on q d) e at f)) (
          update-Stepped r p e at q d l count
            (keep-Consistent v.consistent i d r q p e at (st ∙ sym run) cp (cu ∙ e))
            (record {
              after = w;
              before = λ c s e' le. absurd (omega (arith, ap pos_of (sym e' ∙ (cp ∙ mine))));
            })
            (ground arith))
      where
        pos_of : Option ℕ → ℕ
        pos_of none = 0
        pos_of (some c) = c
    fair-Stepped r p e at run mine (back q d f st cu w l) =
        subst Goal (sym (next_fate r p (gives_way q d) e at f)) (
          update-Stepped r p e at q d l count
            (retire-Consistent v.consistent i d r q p e at (lt_of_busy s i r e) (λ h. absurd (cc))
              cu)
            (record { after = w; before = λ c h e' le. absurd (cc) }) (ground arith))
    fair-Stepped r p e at run mine (over q d f st cu w l) =
        subst Goal (sym (next_fate r p (ends q d) e at f)) (
          update-Stepped r p e at q d l (count + 1)
            (retire-Consistent v.consistent i d r q p e at (lt_of_busy s i r e) (λ h. absurd (cc))
              cu)
            (record { after = w; before = λ c h e' le. absurd (cc) }) (ground arith))

    next_idle : (cpu_at s i).current ≡ none → next ≡ (s, count)
    unfolding tick_one
    next_idle e = ground arith

    pub tick_one-Stepped : Stepped next.0 next.1
    tick_one-Stepped = elim (Option-cases (cpu_at s i).current) [
      | inl e ↦ subst Goal (sym (next_idle e)) (idle-Stepped e)
      | inr (r, e) ↦
          let run = v.consistent.running_of_cpu i r e in
          fair-Stepped r run.proc e run.at run.is_running run.on (
            law.fair now run.proc (cpu_at s i)
              ((v.every r run.proc run.at).before i run.is_running run.on (omega arith))
              run.is_running)
    ]

  -- The ticks of all CPUs from `i` on.
  pub record Ticked (i : ℕ) (s : Machine) (t : Machine) (count : ℕ) : Type 0 where
    pub consistent : Consistent t
    pub every : Every (V (now + 1)) t.procs
    pub counted : count ≡ total_done t.procs
    pub less : total_work t.procs ≤ total_work s.procs
    pub strict :
        (k r : ℕ)
        → i ≤ k
        → k < length s.cpus
        → (cpu_at s k).current ≡ some r
        → total_work t.procs < total_work s.procs
    pub num_cpus : length t.cpus ≡ length s.cpus
    pub num_procs : length t.procs ≡ length s.procs

  pub tick_all-Ticked :
      (n i : ℕ) (s : Machine) (count : ℕ)
      → i + n ≡ length s.cpus
      → Ticking i s count
      → Ticked i s (tick_all (fate now) n i s count).0 (tick_all (fate now) n i s count).1
  unfolding tick_all
  tick_all-Ticked zero i s count e v = record {
    consistent = v.consistent;
    every = λ j p at. (v.every j p at).after;
    counted = v.counted;
    less = omega arith;
    strict = λ k r lo hi. absurd (omega arith);
    num_cpus = refl;
    num_procs = refl;
  }
  tick_all-Ticked (suc n) i s count e v =
      let h = tick_one-Stepped i s count v in
      let (t, count') = tick_one (fate now) i s count in
      let w = tick_all-Ticked n (i + 1) t count' (omega (arith, h.num_cpus)) h.ticking in
      record {
        consistent = w.consistent;
        every = w.every;
        counted = w.counted;
        less = omega (arith, w.less, h.less);
        strict = λ k r lo hi busy. elim (ℕ_discrete k i) [
          | yes same ↦ omega (arith, w.less, h.strict r (rw (← same) busy))
          | no ne ↦ omega (
            arith,
            h.less,
            w.strict k r (omega arith) (omega (arith, h.num_cpus))
                (ap (λ (c : Cpu). c.current) (h.apart k ne) ∙ busy),
          )
        ];
        num_cpus = w.num_cpus ∙ h.num_cpus;
        num_procs = w.num_procs ∙ h.num_procs;
      }
