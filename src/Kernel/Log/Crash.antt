-- ===== src/Kernel/Log/Crash.antt =====
-- A crash during a commit, or during a recovery, loses nothing and leaves no half-done transaction.
use operating_system_lab_pro.Prelude.{
  ℕ, zero, suc, ◌≤◌, ◌≡◌, ◌⊎◌, inl, inr, refl, sym, ap, ◌∙◌, false, List, [], ◌∷◌, ◌++◌, map, All,
  arith, length, length-append, length-map, length-take, take, take-nil, take-append_le, take_all,
  drop, if◌then◌else◌, dec_lt,
}
use mathlib.Core.Path.{subst}
use operating_system_lab_pro.Kernel.Log.{
  log_blocks, Header, Blocks, Write, block_write, head_write, apply_writes, logged, install_trans,
  write_head, read_head, recover_from_log,
}
use operating_system_lab_pro.Kernel.Log.Writes.{
  IsFree, member, apply_writes-append, homing, Holds, homing-head, homing-Holds, homing-content,
  install_trans-writes,
}

-- The disk after a crash that lets the first `k` writes through.
abbrev pub crashed : ℕ → List Write → Blocks → Blocks
crashed k ws disk = apply_writes (take k ws) disk

-- The disk after a recovery that is not interrupted.
abbrev pub recovered : (start : ℕ) → Header → Blocks → Blocks
recovered start lh disk = apply_writes (recover_from_log start lh disk) disk

-- Starts of the machine whose recovery crashes after that many writes each.
abbrev pub restarts : (start : ℕ) → Header → List ℕ → Blocks → Blocks
restarts start lh [] disk = disk
restarts start lh (k ∷ ks) disk =
    restarts start lh ks (crashed k (recover_from_log start lh disk) disk)

pub take-take_append : (n : ℕ) (xs ys : List ℕ) → n ≡ length xs → take n (xs ++ ys) ≡ xs
take-take_append n xs ys e = take-append_le n xs ys (omega arith) ∙ take_all n xs (omega arith)

take-take : (n : ℕ) (xs ys : List ℕ) → n ≤ length xs → take n (take n xs ++ ys) ≡ take n xs
take-take n xs ys h = take-take_append n (take n xs) ys (omega (arith, length-take n xs))

take-map {κ} :
    {A B : Type κ} (f : A → B) (n : ℕ) (xs : List A) → take n (map f xs) ≡ map f (take n xs)
take-map f zero xs = refl
take-map f (suc n) [] = refl
take-map f (suc n) (x ∷ xs) = ap (λ r. f x ∷ r) (take-map f n xs)

member-take : (c n : ℕ) (xs : List ℕ) → member c xs ≡ false → member c (take n xs) ≡ false
member-take c zero xs h = refl
member-take c (suc n) [] h = refl
member-take c (suc n) (x ∷ xs) h = ground (arith, member-take c n xs)

All-take {κ} : (P : ℕ → Type κ) (n : ℕ) (xs : List ℕ) → All P xs → All P (take n xs)
All-take P zero xs h = tt
All-take P (suc n) [] h = tt
All-take P (suc n) (x ∷ xs) h = (h.0, All-take P n xs h.1)

module _ (start : ℕ) (bs : List ℕ) (old x : ℕ → List ℕ) (free : All (IsFree start) bs)
    (small : length bs ≤ log_blocks) where
  -- What the transaction makes of the blocks.
  abbrev pub new : ℕ → List ℕ
  new c = if member c bs then x c else old c

  -- The disk has the transaction in its log; some of it may be at home.
  pub record Committed (d : Blocks) : Type 0 where
    pub count : d.head.n ≡ length bs
    pub blocks : logged d.head ≡ bs
    pub holds : Holds start x 0 bs d.content
    pub rest : (c : ℕ) → IsFree start c → member c bs ≡ false → d.content c ≡ old c

  -- The disk has an empty log and the blocks `v`.
  pub record Clean (v : ℕ → List ℕ) (d : Blocks) : Type 0 where
    pub empty : d.head.n ≡ 0
    pub blocks : (c : ℕ) → IsFree start c → d.content c ≡ v c

  module _ (lh : Header) where
    -- The header that a recovery writes at its end.
    last_head : List ℕ → Blocks → Header
    last_head cs d = record { n = 0; block = (install_trans start 0 cs d).1.head.block }

    recover-writes :
        (d : Blocks) (cs : List ℕ)
        → logged d.head ≡ cs
        → length cs ≡ d.head.n
        → recover_from_log start lh d
          ≡ (install_trans start 0 cs d).0 ++ (head_write (last_head cs d) ∷ [])
    unfolding recover_from_log read_head write_head last_head
    recover-writes d cs e size =
        ap (λ l. (install_trans start 0 l d).0 ++ (head_write (last_head l d) ∷ []))
          (take-take_append d.head.n (logged d.head) (drop d.head.n lh.block)
              (sym size ∙ ap length (sym e))
            ∙ e)

    recover-Committed :
        (d : Blocks)
        → Committed d
        → recover_from_log start lh d ≡ homing start x bs ++ (head_write (last_head bs d) ∷ [])
    recover-Committed d c =
        recover-writes d bs c.blocks (sym c.count)
        ∙ ap (λ ws. ws ++ (head_write (last_head bs d) ∷ []))
            (install_trans-writes start x 0 bs d free (omega (arith, small)) c.holds)

    recover-Clean :
        (v : ℕ → List ℕ) (d : Blocks)
        → Clean v d
        → recover_from_log start lh d ≡ head_write (last_head [] d) ∷ []
    unfolding install_trans
    recover-Clean v d c = recover-writes d [] (ap (λ n. take n d.head.block) c.empty) (sym c.empty)

    -- All blocks at home, and the log erased.
    all_home :
        (d : Blocks)
        → Committed d
        → (h : Header) → h.n ≡ 0
        → Clean new (apply_writes (homing start x bs ++ (head_write h ∷ [])) d)
    unfolding apply_writes
    all_home d c h e =
        subst (Clean new) (sym (apply_writes-append (homing start x bs) (head_write h ∷ []) d))
          (record {
            empty = e;
            blocks = λ k f. homing-content start x bs d k ∙ ground (arith, c.rest k f);
          })

    -- Some blocks at home.
    some_home :
        (j : ℕ) (d : Blocks) → Committed d → Committed (apply_writes (homing start x (take j bs)) d)
    some_home j d c = record {
      count = ap (λ (h : Header). h.n) (homing-head start x (take j bs) d) ∙ c.count;
      blocks = ap logged (homing-head start x (take j bs) d) ∙ c.blocks;
      holds =
          homing-Holds start x 0 bs (take j bs) d (All-take (IsFree start) j bs free)
            (omega (arith, small)) c.holds;
      rest = λ k f e.
          homing-content start x (take j bs) d k
          ∙ ground (arith, member-take k j bs e, c.rest k f e);
    }

    -- A crash among the writes that bring the blocks home and erase the log.
    pub home_crash :
        (j : ℕ) (d : Blocks) (h : Header)
        → h.n ≡ 0
        → Committed d
        → Committed (crashed j (homing start x bs ++ (head_write h ∷ [])) d)
          ⊎ Clean new (crashed j (homing start x bs ++ (head_write h ∷ [])) d)
    home_crash j d h e c =
        let size : length (homing start x bs) ≡ length bs =
          length-map bs (λ b. block_write b (x b)) in
        elim (dec_lt (length bs) j) [
          | yes lt ↦ inr (
              subst (λ ws. Clean new (apply_writes ws d))
                (sym (
                  take_all j (homing start x bs ++ (head_write h ∷ []))
                    (omega (arith, size, length-append (homing start x bs) (head_write h ∷ [])))))
                (all_home d c h e))
          | no ge ↦ inl (
              subst (λ ws. Committed (apply_writes ws d))
                (sym (
                  take-append_le j (homing start x bs) (head_write h ∷ []) (omega (arith, size))
                  ∙ take-map (λ b. block_write b (x b)) j bs))
                (some_home j d c))
        ]

    one_write_Clean :
        (v : ℕ → List ℕ) (j : ℕ) (d : Blocks) (h : Header)
        → h.n ≡ 0
        → Clean v d
        → Clean v (crashed j (head_write h ∷ []) d)
    unfolding apply_writes
    one_write_Clean v zero d h e c = c
    one_write_Clean v (suc j) d h e c =
        subst (λ ws. Clean v (apply_writes ws (record d { head = h }))) (sym (take-nil j))
          (record { empty = e; blocks = c.blocks })

    abbrev pub Settled : Blocks → Type 0
    Settled d = Committed d ⊎ Clean new d

    restart-Clean :
        (v : ℕ → List ℕ) (j : ℕ) (d : Blocks)
        → Clean v d
        → Clean v (crashed j (recover_from_log start lh d) d)
    unfolding last_head
    restart-Clean v j d c =
        subst (λ ws. Clean v (crashed j ws d)) (sym (recover-Clean v d c))
          (one_write_Clean v j d (last_head [] d) refl c)

    restart-Settled :
        (j : ℕ) (d : Blocks) → Settled d → Settled (crashed j (recover_from_log start lh d) d)
    unfolding last_head
    restart-Settled j d (inl c) =
        subst (λ ws. Settled (crashed j ws d)) (sym (recover-Committed d c))
          (home_crash j d (last_head bs d) refl c)
    restart-Settled j d (inr c) = inr (restart-Clean new j d c)

    recovered-Clean : (v : ℕ → List ℕ) (d : Blocks) → Clean v d → Clean v (recovered start lh d)
    unfolding last_head apply_writes
    recovered-Clean v d c =
        subst (λ ws. Clean v (apply_writes ws d)) (sym (recover-Clean v d c))
          (record { empty = refl; blocks = c.blocks })

    recovered-Settled : (d : Blocks) → Settled d → Clean new (recovered start lh d)
    unfolding last_head
    recovered-Settled d (inl c) =
        subst (λ ws. Clean new (apply_writes ws d)) (sym (recover-Committed d c))
          (all_home d c (last_head bs d) refl)
    recovered-Settled d (inr c) = recovered-Clean new d c

    pub restarts-Settled :
        (ks : List ℕ) (d : Blocks)
        → Settled d
        → Clean new (recovered start lh (restarts start lh ks d))
    restarts-Settled [] d h = recovered-Settled d h
    restarts-Settled (k ∷ ks) d h =
        restarts-Settled ks (crashed k (recover_from_log start lh d) d) (restart-Settled k d h)

    pub restarts-Clean :
        (v : ℕ → List ℕ) (ks : List ℕ) (d : Blocks)
        → Clean v d
        → Clean v (recovered start lh (restarts start lh ks d))
    restarts-Clean v [] d h = recovered-Clean v d h
    restarts-Clean v (k ∷ ks) d h =
        restarts-Clean v ks (crashed k (recover_from_log start lh d) d) (restart-Clean v k d h)
