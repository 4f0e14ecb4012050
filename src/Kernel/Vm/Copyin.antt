-- ===== src/Kernel/Vm/Copyin.antt =====
-- What `copyin` returns.
use operating_system_lab_pro.Prelude.{
  ℕ, zero, suc, ◌+◌, ◌-◌, ◌/◌, ◌%◌, ◌<◌, ◌≤◌, ◌≡◌, ◌⊎◌, refl, sym, ap, ◌∙◌, Bool, true, false,
  Option, some, ltb, List, [], ◌++◌, arith, Bool-cases, ℕ_discrete, inl, inr, min, length,
  length-append,
}
use operating_system_lab_pro.Kernel.Page.{page_size, Pte, Ram}
use operating_system_lab_pro.Kernel.Vm.{maxva, pg_down}
use operating_system_lab_pro.Kernel.Vm.User.{read_bytes, copyin_from, copyin}
use operating_system_lab_pro.Kernel.Vm.Own.{Owner, lookup}
use operating_system_lab_pro.Kernel.Vm.Memory.{Preserves, Preserves-refl, Preserves-trans, IsMemory}
use operating_system_lab_pro.Kernel.Vm.Place.{lookup_page}
use operating_system_lab_pro.Kernel.Vm.Bytes.{
  seen_bytes, seen_bytes_append, seen_bytes_ap, read_bytes_seen, length-read_bytes,
}
use operating_system_lab_pro.Kernel.Vm.Fault.{found, nothing, user_page-Faulted}

module _ (kernel_end : ℕ) (group : ℕ → ℕ) (root : ℕ → Option ℕ) (s r sz : ℕ) (small : sz ≤ maxva)
    (start : root s ≡ some r) where
  -- It returns, with bytes that the process sees, and all of them if it succeeds.
  pub record Reads (own : ℕ → Owner) (m : Ram) (srcva len : ℕ)
      (result : Option (Ram × List ℕ × Bool)) : Type 0 where
    pub m' : Ram
    pub own' : ℕ → Owner
    pub bytes : List ℕ
    pub ok : Bool
    pub returns : result ≡ some (m', bytes, ok)
    pub memory : IsMemory kernel_end group root own' m'
    pub kept : Preserves root own m own' m'
    pub read : bytes ≡ seen_bytes r srcva (length bytes) m
    pub part : length bytes ≤ len
    pub full : ok ≡ true → length bytes ≡ len
    pub short : ok ≡ false → length bytes < len
    pub stopped :
        ok ≡ false
        → (e : Pte) → srcva + length bytes < maxva
        → lookup r (srcva + length bytes) m ≡ some e
        → e.u ≡ false

  -- The bytes of one page and those of the rest.
  joined :
      (own own' : ℕ → Owner) (m m' : Ram) (kept : Preserves root own m own' m') (e : Pte)
      (srcva n len : ℕ) (rest : List ℕ)
      → lookup r (pg_down srcva) m' ≡ some e
      → e.u ≡ true
      → pg_down srcva < maxva
      → n ≡ min (page_size - (srcva - pg_down srcva)) len
      → length rest ≤ len - n
      → rest ≡ seen_bytes r (pg_down srcva + page_size) (length rest) m'
      → (read_bytes m' e.ppn (srcva - pg_down srcva) n ++ rest
          ≡ seen_bytes r srcva (n + length rest) m)
  unfolding seen_bytes
  joined own own' m m' kept e srcva n len rest at user low size short read =
      let va0 = pg_down srcva in
      let o = srcva - va0 in
      let fits : o + n ≤ page_size = omega (arith, size) in
      let aligned : va0 % page_size ≡ 0 = omega arith in
      let back : va0 + o ≡ srcva = omega arith in
      let first =
        read_bytes_seen r va0 o n m' e aligned low fits at user
        ∙ ap (λ a. seen_bytes r a n m') back in
      let next : (va0 + page_size ≡ srcva + n) ⊎ (length rest ≡ 0) = elim (Bool-cases (ltb n len)) [
        | inl more ↦ inl (ground (arith, more, size))
        | inr last ↦ inr (ground (arith, last, short))
      ] in
      let second : rest ≡ seen_bytes r (srcva + n) (length rest) m' = ground (arith, next, read) in
      let both : read_bytes m' e.ppn o n ++ rest ≡ seen_bytes r srcva (n + length rest) m' =
        ap (λ l. l ++ rest) first
        ∙ ap (λ l. seen_bytes r srcva n m' ++ l) second
        ∙ sym (seen_bytes_append r srcva n (length rest) m') in
      both ∙ seen_bytes_ap r srcva (n + length rest) m m' (λ a. kept.sees s r a start)

  stops :
      (own own' : ℕ → Owner) (m m' : Ram) (srcva len : ℕ) (ok : Bool)
      (result : Option (Ram × List ℕ × Bool))
      → result ≡ some (m', [], ok)
      → IsMemory kernel_end group root own' m'
      → Preserves root own m own' m'
      → (ok ≡ true → 0 ≡ len)
      → (ok ≡ false → 0 < len)
      → (ok ≡ false
          → (e : Pte) → pg_down srcva < maxva
          → lookup r (pg_down srcva) m ≡ some e
          → e.u ≡ false)
      → Reads own m srcva len result
  unfolding seen_bytes
  stops own own' m m' srcva len ok result e good kept full short stopped = record {
    m' = m';
    own' = own';
    bytes = [];
    ok = ok;
    returns = e;
    memory = good;
    kept = kept;
    read = refl;
    part = omega arith;
    full = full;
    short = short;
    stopped = λ failed x low at.
        let here : srcva + 0 ≡ srcva = omega arith in
        let page : srcva / 4096 ≡ pg_down srcva / 4096 = omega arith in
        stopped failed x (omega (arith, low)) (
          sym (lookup_page r (pg_down srcva) srcva m page)
          ∙ ap (λ a. lookup r a m) (sym here)
          ∙ at);
  }

  -- A page, and the rest.
  goes_on :
      (own own' : ℕ → Owner) (m m' : Ram) (kept : Preserves root own m own' m') (pte : Pte)
      (page srcva len : ℕ) (tail result : Option (Ram × List ℕ × Bool))
      → lookup r (pg_down srcva) m' ≡ some pte
      → pte.u ≡ true
      → pg_down srcva < maxva
      → pte.ppn ≡ page
      → (rest : Reads own' m'
          (pg_down srcva + page_size)
          (len - min (page_size - (srcva - pg_down srcva)) len)
          tail)
      → result
        ≡ some (
          rest.m',
          read_bytes m' page (srcva - pg_down srcva) (min (page_size - (srcva - pg_down srcva)) len)
              ++ rest.bytes,
          rest.ok,
        )
      → Reads own m srcva len result
  goes_on own own' m m' kept pte page srcva len tail result at user low same rest e =
      let o = srcva - pg_down srcva in
      let n = min (page_size - o) len in
      let bytes_eq : read_bytes m' page o n ≡ read_bytes m' pte.ppn o n =
        ap (λ p. read_bytes m' p o n) (sym same) in
      let bytes : List ℕ = read_bytes m' page o n ++ rest.bytes in
      let size : length bytes ≡ n + length rest.bytes =
        ground (
          arith,
          length-append (read_bytes m' page o n) rest.bytes,
          length-read_bytes m' page o n,
        ) in
      record {
        m' = rest.m';
        own' = rest.own';
        bytes = bytes;
        ok = rest.ok;
        returns = e;
        memory = rest.memory;
        kept = Preserves-trans root own m own' m' rest.own' rest.m' kept rest.kept;
        read =
            ap (λ l. l ++ rest.bytes) bytes_eq
            ∙ joined own own' m m' kept pte srcva n len rest.bytes at user low refl rest.part
                rest.read
            ∙ ap (λ k. seen_bytes r srcva k m) (sym size);
        part = omega (arith, size, rest.part);
        full = λ done. omega (arith, size, rest.full done);
        short = λ failed. omega (arith, size, rest.short failed);
        stopped = λ failed x low' at'.
            let place : pg_down srcva + page_size + length rest.bytes ≡ srcva + length bytes =
              omega (arith, rest.short failed, size) in
            let here = kept.lookups s r (srcva + length bytes) x start low' at' in
            rest.stopped failed x (omega (arith, low', place))
              (ap (λ a. lookup r a m') place ∙ here);
      }

  pub copyin_from-Reads :
      (fuel : ℕ) (own : ℕ → Owner) (m : Ram) (srcva len : ℕ)
      → IsMemory kernel_end group root own m
      → len ≤ fuel
      → Reads own m srcva len (copyin_from kernel_end fuel r sz srcva len m)
  unfolding copyin_from
  copyin_from-Reads zero own m srcva len h enough =
      stops own own m m srcva len true (some (m, [], true)) refl h (Preserves-refl root own m)
        (λ e. omega (arith, enough)) (λ f. absurd (ground (arith, f)))
        (λ f. absurd (ground (arith, f)))
  copyin_from-Reads (suc fuel) own m srcva len h enough =
      let va0 = pg_down srcva in
      let result = copyin_from kernel_end (suc fuel) r sz srcva len m in
      elim (ℕ_discrete len 0) [
        | yes done ↦
            stops own own m m srcva len true result (ground (arith, done)) h
              (Preserves-refl root own m) (λ e. sym done) (λ f. absurd (ground (arith, f)))
              (λ f. absurd (ground (arith, f)))
        | no more ↦
            elim (user_page-Faulted kernel_end group root own m h s r sz va0 (omega arith) small
              start) [
                | nothing m' own' e good kept refused ↦
                    stops own own' m m' srcva len false result (ground (arith, more, e)) good kept
                      (λ f. absurd (ground (arith, f))) (λ f. omega (arith, more)) (λ f. refused)
                | found page m' own' pte e good kept low at user same owner ↦
                    let n = min (page_size - (srcva - va0)) len in
                    let rest =
                      copyin_from-Reads fuel own' m' (va0 + page_size) (len - n) good
                        (omega (arith, more, enough)) in
                    goes_on own own' m m' kept pte page srcva len
                      (copyin_from kernel_end fuel r sz (va0 + page_size) (len - n) m') result at
                      user low same rest (ground (arith, more, e, rest.returns))
              ]
      ]

-- When all pages are freed or in use as `own` says, and `sz` is at most MAXVA, `copyin` never panics: it returns bytes
-- that the process sees from `srcva` on, all `len` of them when it returns 0, and what any process sees
-- stays as it was, also when pages were allocated.
pub copyin-Reads :
    (kernel_end : ℕ) (group : ℕ → ℕ) (root : ℕ → Option ℕ) (own : ℕ → Owner) (m : Ram)
    (h : IsMemory kernel_end group root own m) (s r sz srcva len : ℕ) (small : sz ≤ maxva)
    (start : root s ≡ some r)
    → Reads kernel_end group root s r sz small start own m srcva len
        (copyin kernel_end r sz srcva len m)
unfolding copyin
copyin-Reads kernel_end group root own m h s r sz srcva len small start =
    copyin_from-Reads kernel_end group root s r sz small start len own m srcva len h (omega arith)
