-- ===== src/Kernel/Log/Writes.antt =====
-- The disk writes of a commit and of a recovery, and what they do to the disk.
use operating_system_lab_pro.Prelude.{
  ℕ, zero, suc, ◌+◌, ◌≤◌, ◌<◌, ◌≡◌, ◌⊎◌, refl, ap, ap₂, ◌∙◌, Bool, false, ◌||◌, List, [], ◌∷◌, ◌++◌,
  map, All, arith, length, take, ◌==◌, if◌then◌else◌,
}
use operating_system_lab_pro.Kernel.Log.{
  log_blocks, Blocks, put, update, Write, block_write, apply_write, apply_writes, write_log,
  install_trans,
}

-- A block outside the log.
abbrev pub IsFree : (start b : ℕ) → Type 0
IsFree start b = (b < start) ⊎ (start + log_blocks < b)

abbrev pub member : ℕ → List ℕ → Bool
member b [] = false
member b (c ∷ cs) = c == b || member b cs

pub apply_writes-append :
    (ws vs : List Write) (s : Blocks)
    → apply_writes (ws ++ vs) s ≡ apply_writes vs (apply_writes ws s)
unfolding apply_writes
apply_writes-append [] vs s = refl
apply_writes-append (w ∷ ws) vs s = apply_writes-append ws vs (apply_write w s)

-- The cache of an operation has seen its writes.
pub write_log-cache :
    (start tail : ℕ) (bs : List ℕ) (s : Blocks)
    → (write_log start tail bs s).1 ≡ apply_writes (write_log start tail bs s).0 s
unfolding write_log apply_writes
write_log-cache start tail [] s = refl
write_log-cache start tail (b ∷ bs) s =
    write_log-cache start (tail + 1) bs (put s (start + tail + 1) (s.content b))

pub install_trans-cache :
    (start tail : ℕ) (bs : List ℕ) (s : Blocks)
    → (install_trans start tail bs s).1 ≡ apply_writes (install_trans start tail bs s).0 s
unfolding install_trans apply_writes
install_trans-cache start tail [] s = refl
install_trans-cache start tail (b ∷ bs) s =
    install_trans-cache start (tail + 1) bs (put s b (s.content (start + tail + 1)))

module _ (start : ℕ) (x : ℕ → List ℕ) where
  -- Block `b` gets the content `x b`, in the log or at home.
  abbrev pub logging : (tail : ℕ) → List ℕ → List Write
  logging tail [] = []
  logging tail (b ∷ bs) = block_write (start + tail + 1) (x b) ∷ logging (tail + 1) bs

  abbrev pub homing : List ℕ → List Write
  homing bs = map (λ b. block_write b (x b)) bs

  -- The log holds the contents of `bs` from `tail` on.
  abbrev pub Holds : (tail : ℕ) → List ℕ → (ℕ → List ℕ) → Type 0
  Holds tail [] f = Unit
  Holds tail (b ∷ bs) f = (f (start + tail + 1) ≡ x b) × Holds (tail + 1) bs f

  pub length-logging : (tail : ℕ) (bs : List ℕ) → length (logging tail bs) ≡ length bs
  length-logging tail [] = refl
  length-logging tail (b ∷ bs) = ap suc (length-logging (tail + 1) bs)

  pub logging-head :
      (tail : ℕ) (bs : List ℕ) (s : Blocks) → (apply_writes (logging tail bs) s).head ≡ s.head
  unfolding apply_writes
  logging-head tail [] s = refl
  logging-head tail (b ∷ bs) s = logging-head (tail + 1) bs (put s (start + tail + 1) (x b))

  pub homing-head : (bs : List ℕ) (s : Blocks) → (apply_writes (homing bs) s).head ≡ s.head
  unfolding apply_writes
  homing-head [] s = refl
  homing-head (b ∷ bs) s = homing-head bs (put s b (x b))

  -- Logging writes to the slots from `tail` on, as many as there are blocks.
  pub logging_outside :
      (tail : ℕ) (bs : List ℕ) (s : Blocks) (c : ℕ)
      → (c ≤ start + tail) ⊎ (start + tail + length bs < c)
      → (apply_writes (logging tail bs) s).content c ≡ s.content c
  unfolding apply_writes
  logging_outside tail [] s c h = refl
  logging_outside tail (b ∷ bs) s c h =
      logging_outside (tail + 1) bs (put s (start + tail + 1) (x b)) c (omega arith) ∙ ground arith

  pub logging-Holds :
      (tail : ℕ) (bs : List ℕ) (s : Blocks)
      → Holds tail bs (apply_writes (logging tail bs) s).content
  unfolding apply_writes
  logging-Holds tail [] s = tt
  logging-Holds tail (b ∷ bs) s =
      let s' = put s (start + tail + 1) (x b) in
      (
        logging_outside (tail + 1) bs s' (start + tail + 1) (omega arith) ∙ ground arith,
        logging-Holds (tail + 1) bs s',
      )

  -- What is at home does not matter to the log.
  pub Holds-put :
      (tail : ℕ) (bs : List ℕ) (s : Blocks) (b : ℕ) (v : List ℕ)
      → IsFree start b
      → tail + length bs ≤ log_blocks
      → Holds tail bs s.content
      → Holds tail bs (update s.content b v)
  Holds-put tail [] s b v f le h = tt
  Holds-put tail (c ∷ cs) s b v f le h =
      (ground (arith, h.0), Holds-put (tail + 1) cs s b v f (omega arith) h.1)

  pub homing-Holds :
      (tail : ℕ) (bs cs : List ℕ) (s : Blocks)
      → All (IsFree start) cs
      → tail + length bs ≤ log_blocks
      → Holds tail bs s.content
      → Holds tail bs (apply_writes (homing cs) s).content
  unfolding apply_writes
  homing-Holds tail bs [] s f le h = h
  homing-Holds tail bs (c ∷ cs) s f le h =
      homing-Holds tail bs cs (put s c (x c)) f.1 le (Holds-put tail bs s c (x c) f.0 le h)

  pub homing-content :
      (bs : List ℕ) (s : Blocks) (c : ℕ)
      → (apply_writes (homing bs) s).content c ≡ (if member c bs then x c else s.content c)
  unfolding apply_writes
  homing-content [] s c = refl
  homing-content (b ∷ bs) s c = homing-content bs (put s b (x b)) c ∙ ground arith

  pub write_log-writes :
      (tail : ℕ) (bs : List ℕ) (s : Blocks)
      → All (IsFree start) bs
      → tail + length bs ≤ log_blocks
      → ((c : ℕ) → IsFree start c → s.content c ≡ x c)
      → (write_log start tail bs s).0 ≡ logging tail bs
  unfolding write_log
  write_log-writes tail [] s f le h = refl
  write_log-writes tail (b ∷ bs) s f le h =
      ap₂ (λ v r. block_write (start + tail + 1) v ∷ r) (h b f.0)
        (write_log-writes (tail + 1) bs (put s (start + tail + 1) (s.content b)) f.1 (omega arith)
          (λ c g. ground (arith, h c g)))

  pub install_trans-writes :
      (tail : ℕ) (bs : List ℕ) (s : Blocks)
      → All (IsFree start) bs
      → tail + length bs ≤ log_blocks
      → Holds tail bs s.content
      → (install_trans start tail bs s).0 ≡ homing bs
  unfolding install_trans
  install_trans-writes tail [] s f le h = refl
  install_trans-writes tail (b ∷ bs) s f le h =
      ap₂ (λ v r. block_write b v ∷ r) h.0
        (install_trans-writes (tail + 1) bs (put s b (s.content (start + tail + 1))) f.1
          (omega arith)
          (Holds-put (tail + 1) bs s b (s.content (start + tail + 1)) f.0 (omega arith) h.1))

  pub take-logging :
      (k tail : ℕ) (bs : List ℕ) → take k (logging tail bs) ≡ logging tail (take k bs)
  take-logging zero tail bs = refl
  take-logging (suc k) tail [] = refl
  take-logging (suc k) tail (b ∷ bs) =
      ap (λ r. block_write (start + tail + 1) (x b) ∷ r) (take-logging k (tail + 1) bs)
