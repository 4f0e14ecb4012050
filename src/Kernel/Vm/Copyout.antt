-- ===== src/Kernel/Vm/Copyout.antt =====
-- What `copyout` writes, and what it leaves.
use operating_system_lab_pro.Prelude.{
  ℕ, ◌+◌, ◌-◌, ◌/◌, ◌%◌, ◌<◌, ◌≤◌, ◌≡◌, ◌≢◌, ◌⊎◌, refl, sym, ap, ◌∙◌, true, Option, some, ltb, leb,
  List, arith, Option-cases, Bool-cases, ℕ_discrete, inl, inr, length, take, drop, get_or,
  get_or-take, get_or-drop,
}
use operating_system_lab_pro.Kernel.Page.{page_size, Pte, Ram}
use operating_system_lab_pro.Kernel.Vm.{maxva}
use operating_system_lab_pro.Kernel.Vm.User.{write_bytes}
use operating_system_lab_pro.Kernel.Vm.Own.{Owner, frame, lookup, last_table, seen, lookup_owner}
use operating_system_lab_pro.Kernel.Vm.Memory.{Preserves, IsMemory}
use operating_system_lab_pro.Kernel.Vm.Place.{lookup_page}
use operating_system_lab_pro.Kernel.Vm.Bytes.{page_seen}

-- Not one of the `k` addresses from `dstva` on.
abbrev pub Outside : (dstva k va : ℕ) → Type 0
Outside dstva k va = (va < dstva) ⊎ (dstva + k ≤ va)

module _ (kernel_end : ℕ) (group : ℕ → ℕ) (root : ℕ → Option ℕ) (s r sz : ℕ) (small : sz ≤ maxva)
    (start : root s ≡ some r) where
  -- A write of `k` bytes of `src` at `dstva`, as processes see it: other processes see none of it.
  pub record Wrote (m m' : Ram) (dstva k : ℕ) (src : List ℕ) : Type 0 where
    pub wrote : (i : ℕ) → i < k → seen r (dstva + i) m' ≡ get_or src i 0
    pub left :
        (s' r' va : ℕ)
        → root s' ≡ some r'
        → (group s' ≢ group s) ⊎ Outside dstva k va
        → seen r' va m' ≡ seen r' va m
    pub lookups :
        (s' r' va : ℕ) (e : Pte)
        → root s' ≡ some r'
        → va < maxva
        → lookup r' va m ≡ some e
        → lookup r' va m' ≡ some e
    pub mapped :
        (i : ℕ)
        → i < k
        → (e : Pte) × (dstva + i < maxva) × (lookup r (dstva + i) m' ≡ some e) × (e.u ≡ true)

  -- The bytes that are written to one page.
  module _ (own : ℕ → Owner) (m : Ram) (h : IsMemory kernel_end group root own m) (e : Pte)
      (va0 o page : ℕ) (src : List ℕ) (aligned : va0 % page_size ≡ 0) (low : va0 < maxva)
      (fits : o + length src ≤ page_size) (at : lookup r va0 m ≡ some e) (user : e.u ≡ true)
      (same : e.ppn ≡ page) where
    abbrev pub after : Ram
    after = write_bytes m page o src

    same_lookup : (r' va : ℕ) → lookup r' va after ≡ lookup r' va m
    unfolding lookup last_table
    same_lookup r' va = refl

    pub after-IsMemory : IsMemory kernel_end group root own after
    after-IsMemory = record {
      owned = record {
        free = h.owned.free;
        distinct = h.owned.distinct;
        roots = h.owned.roots;
        points = h.owned.points;
      };
      ram = h.ram;
    }

    written : (i : ℕ) → i < length src → seen r (va0 + o + i) after ≡ get_or src i 0
    written i below =
        let place : va0 + (o + i) ≡ va0 + o + i = omega arith in
        let back : o + i - o ≡ i = omega arith in
        let byte : after.bytes e.ppn (o + i) ≡ get_or src i 0 = ground (arith, same, back, below) in
        ap (λ a. seen r a after) (sym place)
        ∙ page_seen r va0 (o + i) after e aligned low (omega (arith, fits, below))
            (same_lookup r va0 ∙ at) user
        ∙ byte

    elsewhere :
        (s' r' va : ℕ) (x : Pte)
        → root s' ≡ some r'
        → va < maxva
        → (group s' ≢ group s) ⊎ Outside (va0 + o) (length src) va
        → lookup r' va m ≡ some x
        → x.u ≡ true
        → after.bytes x.ppn (va % page_size) ≡ m.bytes x.ppn (va % page_size)
    elsewhere s' r' va x start' low' other at' user' = elim (ℕ_discrete x.ppn page) [
      | no ne ↦ ground (arith, ne)
      | yes hit ↦
          let owner = lookup_owner group root own m h.owned s r va0 e start low at user in
          let owner' = lookup_owner group root own m h.owned s' r' va x start' low' at' user' in
          let both : frame (group s') (va / 4096) ≡ frame (group s) (va0 / 4096) =
            sym owner' ∙ ap own (hit ∙ sym same) ∙ owner in
          let group_lem : group s' ≡ group s = ground (arith, both) in
          let number : va / 4096 ≡ va0 / 4096 = ground (arith, both) in
          let outside : Outside (va0 + o) (length src) va = ground (arith, other, group_lem) in
          let split : va ≡ va0 + va % page_size = omega (arith, number, aligned) in
          let miss : (va % page_size < o) ⊎ (o + length src ≤ va % page_size) = elim outside [
            | inl before ↦ inl (omega (arith, before, split))
            | inr past ↦ inr (omega (arith, past, split))
          ] in
          ground (arith, miss)
    ]

    others :
        (s' r' va : ℕ)
        → root s' ≡ some r'
        → (group s' ≢ group s) ⊎ Outside (va0 + o) (length src) va
        → seen r' va after ≡ seen r' va m
    unfolding seen
    others s' r' va start' other = elim (Bool-cases (leb maxva va)) [
      | inl out ↦ ground (arith, out)
      | inr within ↦ elim (Option-cases (lookup r' va m)) [
        | inl at' ↦ ground (arith, within, at', same_lookup r' va)
        | inr (x, at') ↦ elim (Bool-cases x.u) [
          | inr kernel_only ↦ ground (arith, within, at', kernel_only, same_lookup r' va)
          | inl user' ↦ ground (
            arith,
            within,
            at',
            user',
            same_lookup r' va,
            elsewhere s' r' va x start' (ground (arith, within)) other at' user',
          )
        ]
      ]
    ]

    pub after-Wrote : Wrote m after (va0 + o) (length src) src
    after-Wrote = record {
      wrote = written;
      left = others;
      lookups = λ s' r' va x start' low' at'. same_lookup r' va ∙ at';
      mapped = λ i below.
          let number : (va0 + o + i) / 4096 ≡ va0 / 4096 = omega (arith, aligned, fits, below) in
          let inside : va0 + o + i < maxva = omega (arith, aligned, low, fits, below) in
          (e, inside, lookup_page r va0 (va0 + o + i) after number ∙ same_lookup r va0 ∙ at, user);
    }

  -- A write, and the rest of it.
  pub Wrote-trans :
      (m m1 m2 : Ram) (dstva n dst2 k : ℕ) (src : List ℕ)
      → n ≤ length src
      → Wrote m m1 dstva n (take n src)
      → Wrote m1 m2 dst2 k (drop n src)
      → (dst2 ≡ dstva + n) ⊎ (k ≡ 0)
      → Wrote m m2 dstva (n + k) src
  Wrote-trans m m1 m2 dstva n dst2 k src fits f g next = record {
    wrote = λ i below. elim (Bool-cases (ltb i n)) [
      | inl first ↦
          let in_first : i < n = ground (arith, first) in
          let stays = g.left s r (dstva + i) start (inr (ground (arith, next, in_first))) in
          stays ∙ f.wrote i in_first ∙ get_or-take n src i 0 in_first
      | inr second ↦
          let past : n ≤ i = ground (arith, second) in
          let more : i - n < k = omega (arith, below, past) in
          let shift : dst2 + (i - n) ≡ dstva + i = ground (arith, next, past, more) in
          let index : n + (i - n) ≡ i = omega (arith, past) in
          ap (λ a. seen r a m2) (sym shift)
          ∙ g.wrote (i - n) more
          ∙ get_or-drop n src (i - n) 0
          ∙ ap (λ j. get_or src j 0) index
    ];
    left = λ s' r' va start' other.
        g.left s' r' va start' (ground (arith, other, next))
        ∙ f.left s' r' va start' (ground (arith, other));
    lookups = λ s' r' va x start' low' at'.
        g.lookups s' r' va x start' low' (f.lookups s' r' va x start' low' at');
    mapped = λ i below. elim (Bool-cases (ltb i n)) [
      | inl first ↦
          let (e, low', at', user') = f.mapped i (ground (arith, first)) in
          (e, low', g.lookups s r (dstva + i) e start low' at', user')
      | inr second ↦
          let past : n ≤ i = ground (arith, second) in
          let more : i - n < k = omega (arith, below, past) in
          let shift : dst2 + (i - n) ≡ dstva + i = ground (arith, next, past, more) in
          let (e, low', at', user') = g.mapped (i - n) more in
          (e, omega (arith, low', shift), ap (λ a. lookup r a m2) (sym shift) ∙ at', user')
    ];
  }

  pub kept-Wrote :
      (own own' : ℕ → Owner) (m m' : Ram) (dstva : ℕ) (src : List ℕ)
      → Preserves root own m own' m'
      → Wrote m m' dstva 0 src
  kept-Wrote own own' m m' dstva src kept = record {
    wrote = λ i below. absurd (omega (arith, below));
    left = λ s' r' va start' other. kept.sees s' r' va start';
    lookups = kept.lookups;
    mapped = λ i below. absurd (omega (arith, below));
  }

  pub first_page :
      (m m' : Ram) (dstva n o va0 : ℕ) (src : List ℕ)
      → va0 + o ≡ dstva
      → length (take n src) ≡ n
      → Wrote m m' (va0 + o) (length (take n src)) (take n src)
      → Wrote m m' dstva n (take n src)
  first_page m m' dstva n o va0 src back taken w = record {
    wrote =
        λ i below. ap (λ a. seen r (a + i) m') (sym back) ∙ w.wrote i (omega (arith, below, taken));
    left = λ s' r' va start' other. w.left s' r' va start' (ground (arith, other, back, taken));
    lookups = w.lookups;
    mapped = λ i below.
        let (e, low', at', user') = w.mapped i (omega (arith, below, taken)) in
        let place : va0 + o + i ≡ dstva + i = omega (arith, back) in
        (e, omega (arith, low', place), ap (λ a. lookup r a m') (sym place) ∙ at', user');
  }
