-- ===== src/Kernel/Vm/Rounds.antt =====
-- `copyout` as a whole.
use operating_system_lab_pro.Prelude.{
  ℕ, zero, suc, ◌+◌, ◌-◌, ◌≤◌, ◌≡◌, ◌⊎◌, refl, sym, ◌∙◌, Bool, true, false, Option, some, ltb, leb,
  List, arith, Bool-cases, ℕ_discrete, inl, inr, min, length, length-take, length-drop, take, drop,
}
use operating_system_lab_pro.Kernel.Page.{page_size, Ram}
use operating_system_lab_pro.Kernel.Vm.{maxva, pg_down}
use operating_system_lab_pro.Kernel.Vm.User.{write_bytes, writable, copyout_from, copyout}
use operating_system_lab_pro.Kernel.Vm.Own.{Owner}
use operating_system_lab_pro.Kernel.Vm.Memory.{Preserves, Preserves-refl, IsMemory}
use operating_system_lab_pro.Kernel.Vm.Fault.{found, nothing, user_page-Faulted}
use operating_system_lab_pro.Kernel.Vm.Copyout.{
  Wrote, Wrote-trans, kept-Wrote, first_page, after-IsMemory, after-Wrote,
}

-- A round takes the rest of a page, or all that is left.
page_end :
    (a n : ℕ)
    → (pg_down a + page_size ≡ a + min (page_size - (a - pg_down a)) n)
      ⊎ (n ≤ min (page_size - (a - pg_down a)) n)
page_end a n = elim (Bool-cases (ltb (page_size - (a - pg_down a)) n)) [
  | inl cut ↦ inl (ground (arith, cut))
  | inr all ↦ inr (ground (arith, all))
]

module _ (kernel_end : ℕ) (group : ℕ → ℕ) (root : ℕ → Option ℕ) (s r sz : ℕ) (small : sz ≤ maxva)
    (start : root s ≡ some r) where
  -- It returns, and wrote a part of `src`, all of it if it succeeds.
  pub record Writes (m : Ram) (dstva : ℕ) (src : List ℕ) (result : Option (Ram × Bool))
      : Type 0 where
    pub m' : Ram
    pub own' : ℕ → Owner
    pub ok : Bool
    pub k : ℕ
    pub returns : result ≡ some (m', ok)
    pub memory : IsMemory kernel_end group root own' m'
    pub wrote : Wrote kernel_end group root s r sz small start m m' dstva k src
    pub part : k ≤ length src
    pub full : ok ≡ true → k ≡ length src

  stops :
      (own own' : ℕ → Owner) (m m' : Ram) (dstva : ℕ) (src : List ℕ) (ok : Bool)
      (result : Option (Ram × Bool))
      → result ≡ some (m', ok)
      → IsMemory kernel_end group root own' m'
      → Preserves root own m own' m'
      → (ok ≡ true → 0 ≡ length src)
      → Writes m dstva src result
  stops own own' m m' dstva src ok result e good kept full = record {
    m' = m';
    own' = own';
    ok = ok;
    k = 0;
    returns = e;
    memory = good;
    wrote = kept-Wrote kernel_end group root s r sz small start own own' m m' dstva src kept;
    part = omega arith;
    full = full;
  }

  -- A page, and the rest.
  goes_on :
      (own own' : ℕ → Owner) (m m1 m2 : Ram) (dstva n : ℕ) (src : List ℕ) (dst2 : ℕ)
      (result : Option (Ram × Bool))
      → Preserves root own m own' m1
      → Wrote kernel_end group root s r sz small start m1 m2 dstva n (take n src)
      → n ≤ length src
      → (dst2 ≡ dstva + n) ⊎ (length src ≤ n)
      → (tail : Option (Ram × Bool)) → result ≡ tail
      → Writes m2 dst2 (drop n src) tail
      → Writes m dstva src result
  goes_on own own' m m1 m2 dstva n src dst2 result kept first fits next tail e rest =
      let count : length (drop n src) ≡ length src - n = length-drop n src in
      let part : rest.k ≤ length src - n = ground (arith, count, rest.part) in
      let both : Wrote kernel_end group root s r sz small start m m2 dstva n (take n src) = record {
        wrote = first.wrote;
        left =
            λ s' r' va start' other. first.left s' r' va start' other ∙ kept.sees s' r' va start';
        lookups = λ s' r' va x start' low' at'.
            first.lookups s' r' va x start' low' (kept.lookups s' r' va x start' low' at');
        mapped = first.mapped;
      } in
      record {
        m' = rest.m';
        own' = rest.own';
        ok = rest.ok;
        k = n + rest.k;
        returns = e ∙ rest.returns;
        memory = rest.memory;
        wrote =
            Wrote-trans kernel_end group root s r sz small start m m2 rest.m' dstva n dst2 rest.k
              src fits both rest.wrote (ground (arith, next, part));
        part = omega (arith, part, fits);
        full = λ done. ground (arith, rest.full done, count, fits);
      }

  pub copyout_from-Writes :
      (fuel : ℕ) (own : ℕ → Owner) (m : Ram) (dstva : ℕ) (src : List ℕ)
      → IsMemory kernel_end group root own m
      → length src ≤ fuel
      → Writes m dstva src (copyout_from kernel_end fuel r sz dstva src m)
  unfolding copyout_from
  copyout_from-Writes zero own m dstva src h enough =
      stops own own m m dstva src true (some (m, true)) refl h (Preserves-refl root own m)
        (λ e. omega (arith, enough))
  copyout_from-Writes (suc fuel) own m dstva src h enough =
      let va0 = pg_down dstva in
      let result = copyout_from kernel_end (suc fuel) r sz dstva src m in
      elim (ℕ_discrete (length src) 0) [
        | yes done ↦
            stops own own m m dstva src true result (ground (arith, done)) h
              (Preserves-refl root own m) (λ e. sym done)
        | no more ↦ elim (Bool-cases (leb maxva va0)) [
          | inl out ↦
              stops own own m m dstva src false result (ground (arith, more, out)) h
                (Preserves-refl root own m) (λ f. absurd (ground (arith, f)))
          | inr within ↦
              elim (user_page-Faulted kernel_end group root own m h s r sz va0 (omega arith) small
                start) [
                  | nothing m' own' e good kept refused ↦
                      stops own own' m m' dstva src false result (ground (arith, more, within, e))
                        good kept (λ f. absurd (ground (arith, f)))
                  | found page m' own' pte e good kept low at user same owner ↦
                      let n = min (page_size - (dstva - va0)) (length src) in
                      let taken : length (take n src) ≡ n = ground (arith, length-take n src) in
                      elim (Bool-cases (writable r va0 m')) [
                        | inr read_only ↦
                            stops own own' m m' dstva src false result
                              (ground (arith, more, within, e, read_only)) good kept
                              (λ f. absurd (ground (arith, f)))
                        | inl may ↦
                            let fits : dstva - va0 + length (take n src) ≤ page_size =
                              ground (arith, taken) in
                            let m'' = write_bytes m' page (dstva - va0) (take n src) in
                            let good' =
                              after-IsMemory kernel_end group root s r sz small start own' m' good
                                pte va0 (dstva - va0) page (take n src) (omega arith) low fits at
                                user same in
                            let page_lem =
                              after-Wrote kernel_end group root s r sz small start own' m' good pte
                                va0 (dstva - va0) page (take n src) (omega arith) low fits at user
                                same in
                            let left_over : length (drop n src) ≤ fuel =
                              ground (arith, length-drop n src, more, enough) in
                            goes_on own own' m m' m'' dstva n src (va0 + page_size) result kept
                              (first_page kernel_end group root s r sz small start m' m'' dstva n
                                (dstva - va0) va0 src (omega arith) taken page_lem)
                              (ground (arith, more)) (page_end dstva (length src))
                              (copyout_from kernel_end fuel r sz (va0 + page_size) (drop n src) m'')
                              (ground (arith, more, within, e, may))
                              (copyout_from-Writes fuel own' m'' (va0 + page_size) (drop n src)
                                good' left_over)
                      ]
                ]
        ]
      ]

-- When all pages are freed or in use as `own` says, and `sz` is at most MAXVA, `copyout` never panics: it writes a part of
-- `src` from `dstva` on, all of it when it returns 0, which the process then sees there. It keeps memory in order, and
-- what the process sees elsewhere, and all that processes of other groups see, stays as it was.
pub copyout-Writes :
    (kernel_end : ℕ) (group : ℕ → ℕ) (root : ℕ → Option ℕ) (own : ℕ → Owner) (m : Ram)
    (h : IsMemory kernel_end group root own m) (s r sz dstva : ℕ) (src : List ℕ)
    (small : sz ≤ maxva) (start : root s ≡ some r)
    → Writes kernel_end group root s r sz small start m dstva src
        (copyout kernel_end r sz dstva src m)
unfolding copyout
copyout-Writes kernel_end group root own m h s r sz dstva src small start =
    copyout_from-Writes kernel_end group root s r sz small start (length src) own m dstva src h
      (omega arith)
