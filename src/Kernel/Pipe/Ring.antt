-- ===== src/Kernel/Pipe/Ring.antt =====
-- The bytes that a pipe holds, oldest first.
use operating_system_lab_pro.Prelude.{
  ℕ, zero, suc, ◌+◌, ◌-◌, ◌%◌, ◌≤◌, ◌<◌, ◌≡◌, ◌≢◌, refl, sym, ap, ap₂, ◌∙◌, List, [], ◌∷◌, ◌++◌,
  arith, length, length-set, get_or, get_or-set, get_or-set_self, set, ◌==◌,
}
use operating_system_lab_pro.Kernel.Pipe.{
  pipe_size, uint_size, Pipe, is_full, is_empty, put_byte, next_byte, drop_byte,
}

-- How many bytes are in the pipe.
abbrev pub used : Pipe → ℕ
used pi = (pi.nwrite + uint_size - pi.nread) % uint_size

pub record IsPipe (pi : Pipe) : Type 0 where
  pub size : length pi.bytes ≡ pipe_size
  pub read_small : pi.nread < uint_size
  pub write_small : pi.nwrite < uint_size
  pub fits : used pi ≤ pipe_size

-- `n` bytes of the ring from position `r` on.
unfoldable pub window : List ℕ → (r n : ℕ) → List ℕ
window bytes r zero = []
window bytes r (suc n) = get_or bytes (r % pipe_size) 0 ∷ window bytes (r + 1) n

unfoldable pub contents : Pipe → List ℕ
unfolding window
contents pi = window pi.bytes pi.nread (used pi)

pub length-window : (bytes : List ℕ) (r n : ℕ) → length (window bytes r n) ≡ n
unfolding window
length-window bytes r zero = refl
length-window bytes r (suc n) = ap suc (length-window bytes (r + 1) n)

-- The position counts up to a multiple of the ring's size.
pub window_mod :
    (bytes : List ℕ) (r s n : ℕ)
    → r % pipe_size ≡ s % pipe_size
    → window bytes r n ≡ window bytes s n
unfolding window
window_mod bytes r s zero e = refl
window_mod bytes r s (suc n) e =
    ap₂ (λ b rest. b ∷ rest) (ap (λ i. get_or bytes i 0) e)
      (window_mod bytes (r + 1) (s + 1) n (omega arith))

-- A write at the end of the window does not change it.
pub window-set :
    (bytes : List ℕ) (r n i v : ℕ)
    → n < pipe_size
    → i % pipe_size ≡ (r + n) % pipe_size
    → window (set bytes (i % pipe_size) v) r n ≡ window bytes r n
unfolding window
window-set bytes r zero i v lt e = refl
window-set bytes r (suc n) i v lt e =
    ap₂ (λ b rest. b ∷ rest) (ground (arith, get_or-set bytes (i % pipe_size) (r % pipe_size) v 0))
      (window-set bytes (r + 1) n i v (omega arith) (omega arith))

pub window-snoc :
    (bytes : List ℕ) (r n : ℕ)
    → window bytes r (suc n) ≡ window bytes r n ++ (get_or bytes ((r + n) % pipe_size) 0 ∷ [])
unfolding window
window-snoc bytes r zero = ap (λ i. get_or bytes (i % pipe_size) 0 ∷ []) (omega arith)
window-snoc bytes r (suc n) =
    ap (λ rest. get_or bytes (r % pipe_size) 0 ∷ rest)
      (window-snoc bytes (r + 1) n
        ∙ ap (λ i. window bytes (r + 1) n ++ (get_or bytes (i % pipe_size) 0 ∷ [])) (omega arith))

module _ (pi : Pipe) (v : IsPipe pi) where
  pub length-contents : length (contents pi) ≡ used pi
  unfolding contents
  length-contents = length-window pi.bytes pi.nread (used pi)

  pub full_iff : is_full pi ≡ (length (contents pi) == pipe_size)
  full_iff = ground (arith, length-contents, v.read_small, v.write_small, v.fits)

  pub empty_iff : is_empty pi ≡ (length (contents pi) == 0)
  empty_iff = ground (arith, length-contents, v.read_small, v.write_small, v.fits)

  module _ (ch : ℕ) (room : length (contents pi) ≢ pipe_size) where
    pub put-IsPipe : IsPipe (put_byte pi ch)
    put-IsPipe = record {
      size = length-set pi.bytes (pi.nwrite % pipe_size) ch ∙ v.size;
      read_small = v.read_small;
      write_small = omega arith;
      fits = omega (arith, v.read_small, v.write_small, v.fits, length-contents);
    }

    used-put : used (put_byte pi ch) ≡ suc (used pi)
    used-put = omega (arith, v.read_small, v.write_small, v.fits, length-contents)

    end_index : pi.nwrite % pipe_size ≡ (pi.nread + used pi) % pipe_size
    end_index = omega (arith, v.read_small, v.write_small)

    pub contents-put : contents (put_byte pi ch) ≡ contents pi ++ (ch ∷ [])
    unfolding contents
    contents-put =
        let bytes' = set pi.bytes (pi.nwrite % pipe_size) ch in
        ap (window bytes' pi.nread) used-put
        ∙ window-snoc bytes' pi.nread (used pi)
        ∙ ap₂ (λ front last. front ++ (last ∷ []))
            (window-set pi.bytes pi.nread (used pi) pi.nwrite ch
              (omega (arith, v.fits, length-contents)) end_index)
            (ap (λ i. get_or bytes' i 0) (sym end_index)
              ∙ get_or-set_self pi.bytes (pi.nwrite % pipe_size) ch 0 (omega (arith, v.size)))

  module _ (some! : length (contents pi) ≢ 0) where
    pub drop-IsPipe : IsPipe (drop_byte pi)
    drop-IsPipe = record {
      size = v.size;
      read_small = omega arith;
      write_small = v.write_small;
      fits = omega (arith, v.read_small, v.write_small, v.fits, length-contents);
    }

    used-drop : used pi ≡ suc (used (drop_byte pi))
    used-drop = omega (arith, v.read_small, v.write_small, v.fits, length-contents)

    pub contents-drop : contents pi ≡ next_byte pi ∷ contents (drop_byte pi)
    unfolding contents
    contents-drop =
        ap (window pi.bytes pi.nread) used-drop
        ∙ ap (λ rest. next_byte pi ∷ rest)
            (window_mod pi.bytes (pi.nread + 1) ((pi.nread + 1) % uint_size) (used (drop_byte pi))
              (omega arith))
