-- ===== src/User/Grep/Lines.antt =====
-- What `grep` writes, however the file comes in pieces.
use operating_system_lab_pro.Prelude.{
  ℕ, zero, suc, ◌-◌, ◌<◌, ◌≡◌, ◌≢◌, refl, sym, ap, ◌∙◌, Bool, true, false, List, [], ◌∷◌, ◌++◌,
  append-nil, append_assoc, length, length-append, arith, All, ◌==◌, if◌then◌else◌, some,
  ℕ_discrete,
}
use mathlib.Core.Option
use mathlib.Core.Path.{subst}
use operating_system_lab_pro.User.Grep.{newline, match, buf_size, lines, Reader, grep_loop, grep}

-- The matching lines of a text, with their newlines, where `p` is the line so far; what follows the last
-- newline is no line.
unfoldable pub matching_lines : (pattern p text : List ℕ) → List ℕ
matching_lines pattern p [] = []
matching_lines pattern p (c ∷ text) =
    let next = matching_lines pattern [] text in
    let longer = matching_lines pattern (p ++ (c ∷ [])) text in
    if c == newline then if match pattern p then p ++ (newline ∷ next) else next else longer

-- No byte is a NUL, and every line fits into the buffer; `k` bytes of the first line came before.
unfoldable pub LinesFit : (k : ℕ) → List ℕ → Type 0
LinesFit k [] = k < buf_size - 1
LinesFit k (c ∷ text) =
    (k < buf_size - 1) × (c ≢ 0) × LinesFit (if c == newline then 0 else suc k) text

LinesFit-lt : (k : ℕ) (text : List ℕ) → LinesFit k text → k < buf_size - 1
unfolding LinesFit
LinesFit-lt k [] f = f
LinesFit-lt k (c ∷ text) f = f.0

-- A part of a line.
abbrev Inside : List ℕ → Type 0
Inside p = All (λ c. (c ≢ 0) × (c ≢ newline)) p

snoc-Inside : (p : List ℕ) (c : ℕ) → Inside p → c ≢ 0 → c ≢ newline → Inside (p ++ (c ∷ []))
snoc-Inside [] c h nul nl = ((nul, nl), tt)
snoc-Inside (b ∷ p) c h nul nl = (h.0, snoc-Inside p c h.1 nul nl)

-- The bytes that were kept are passed over.
lines-kept :
    (pattern p kept buf : List ℕ)
    → Inside kept
    → lines pattern p (kept ++ buf) ≡ lines pattern (p ++ kept) buf
unfolding lines
lines-kept pattern p [] buf h = ap (λ w. lines pattern w buf) (sym (append-nil p))
lines-kept pattern p (c ∷ kept) buf h =
    let rest = lines-kept pattern (p ++ (c ∷ [])) kept buf h.1 in
    let line = append_assoc p (c ∷ []) kept in
    ground (arith, h.0.0, h.0.1, rest ∙ ap (λ w. lines pattern w buf) line)

-- What the loop over the lines does to a piece of the text, where `later` follows.
record Piece (pattern p buf later : List ℕ) : Type 0 where
  inside : Inside (lines pattern p buf).1
  fits : LinesFit (length (lines pattern p buf).1) later
  written :
      matching_lines pattern p (buf ++ later)
      ≡ (lines pattern p buf).0 ++ matching_lines pattern (lines pattern p buf).1 later

lines-newline :
    (pattern p buf : List ℕ)
    → let (out, left) = lines pattern [] buf in
      lines pattern p (newline ∷ buf)
      ≡ (if match pattern p then p ++ (newline ∷ out) else out, left)
unfolding lines
lines-newline pattern p buf = refl

lines-longer :
    (pattern p buf : List ℕ) (c : ℕ)
    → c ≢ 0
    → c ≢ newline
    → lines pattern p (c ∷ buf) ≡ lines pattern (p ++ (c ∷ [])) buf
unfolding lines
lines-longer pattern p buf c nul nl = ground (arith, nul, nl)

matching-longer :
    (pattern p text : List ℕ) (c : ℕ)
    → c ≢ newline
    → matching_lines pattern p (c ∷ text) ≡ matching_lines pattern (p ++ (c ∷ [])) text
unfolding matching_lines
matching-longer pattern p text c nl = ground (arith, nl)

-- A line that ends, before what is written of the rest.
line_then :
    (b : Bool) (p out rest : List ℕ)
    → (if b then p ++ (newline ∷ (out ++ rest)) else out ++ rest)
      ≡ (if b then p ++ (newline ∷ out) else out) ++ rest
line_then true p out rest = sym (append_assoc p (newline ∷ out) rest)
line_then false p out rest = refl

module _ (pattern p buf later : List ℕ) where
  newline-Piece : Piece pattern [] buf later → Piece pattern p (newline ∷ buf) later
  unfolding matching_lines lines
  newline-Piece next =
      let (out, left) = lines pattern [] buf in
      record {
        inside = next.inside;
        fits = next.fits;
        written =
            ap (λ w. if match pattern p then p ++ (newline ∷ w) else w) next.written
            ∙ line_then (match pattern p) p out (matching_lines pattern left later);
      }

  module _ (c : ℕ) (nul : c ≢ 0) (nl : c ≢ newline) where
    longer-Piece : Piece pattern (p ++ (c ∷ [])) buf later → Piece pattern p (c ∷ buf) later
    longer-Piece next =
        let same = sym (lines-longer pattern p buf c nul nl) in
        record {
          inside = subst (λ r. Inside r.1) same next.inside;
          fits = subst (λ r. LinesFit (length r.1) later) same next.fits;
          written =
              matching-longer pattern p (buf ++ later) c nl
              ∙ next.written
              ∙ ap (λ r. r.0 ++ matching_lines pattern r.1 later) same;
        }

lines-Piece :
    (pattern p buf later : List ℕ)
    → Inside p
    → LinesFit (length p) (buf ++ later)
    → Piece pattern p buf later
unfolding lines matching_lines LinesFit
lines-Piece pattern p [] later h f = record { inside = h; fits = f; written = refl }
lines-Piece pattern p (c ∷ buf) later h f = elim (ℕ_discrete c newline) [
  | yes e ↦
      let next =
        lines-Piece pattern [] buf later tt
          (subst (λ k. LinesFit k (buf ++ later)) (ground (arith, e)) f.2) in
      subst (λ b. Piece pattern p (b ∷ buf) later) (sym e) (newline-Piece pattern p buf later next)
  | no ne ↦
      let next = lines-Piece pattern (p ++ (c ∷ [])) buf later (snoc-Inside p c h f.1 ne) (
        subst (λ k. LinesFit k (buf ++ later)) (ground (arith, ne, length-append p (c ∷ [])))
          f.2) in
      longer-Piece pattern p buf later c f.1 ne next
]

module _ (reader : Reader) (pattern : List ℕ) where
  open reader use {File, read, content, read_next, read_some}

  -- What the next read gives.
  abbrev piece_of : (kept : List ℕ) → File → List ℕ × File
  piece_of kept fd = read (buf_size - length kept - 1) fd

  loop_end :
      (fuel : ℕ) (kept : List ℕ) (fd : File)
      → length (piece_of kept fd).0 ≡ 0
      → grep_loop reader pattern (suc fuel) kept fd ≡ some []
  unfolding grep_loop
  loop_end fuel kept fd e = ground (arith, e)

  loop_more :
      (fuel : ℕ) (kept : List ℕ) (fd : File)
      → length (piece_of kept fd).0 ≢ 0
      → let (got, fd') = piece_of kept fd in
        let (out, left) = lines pattern [] (kept ++ got) in
        grep_loop reader pattern (suc fuel) kept fd
        ≡ Option.map (λ out'. out ++ out') (grep_loop reader pattern fuel left fd')
  unfolding grep_loop
  loop_more fuel kept fd ne = ground (arith, ne)

  grep_loop_lem :
      (fuel : ℕ) (kept : List ℕ) (fd : File)
      → length (content fd) < fuel
      → Inside kept
      → LinesFit (length kept) (content fd)
      → grep_loop reader pattern fuel kept fd ≡ some (matching_lines pattern kept (content fd))
  unfolding matching_lines
  grep_loop_lem zero kept fd lt h f = absurd (omega arith)
  grep_loop_lem (suc fuel) kept fd lt h f =
      let k = buf_size - length kept - 1 in
      let (got, fd') = piece_of kept fd in
      elim (ℕ_discrete (length got) 0) [
        | yes none_left ↦
            let room : 0 < k = omega (arith, LinesFit-lt (length kept) (content fd) f) in
            loop_end fuel kept fd none_left
            ∙ ap (λ t. some (matching_lines pattern kept t)) (sym (read_some k fd room none_left))
        | no some! ↦
            let next = read_next k fd in
            let (out, left) = lines pattern kept got in
            let piece =
              lines-Piece pattern kept got (content fd') h
                (subst (LinesFit (length kept)) next f) in
            let ih =
              grep_loop_lem fuel left fd'
                (omega (arith, ap length next, length-append got (content fd'))) piece.inside
                piece.fits in
            loop_more fuel kept fd some!
            ∙ ap (λ r. Option.map (λ out'. r.0 ++ out') (grep_loop reader pattern fuel r.1 fd'))
                (lines-kept pattern [] kept got h)
            ∙ ap (Option.map (λ out'. out ++ out')) ih
            ∙ ap some (sym piece.written ∙ ap (matching_lines pattern kept) (sym next))
      ]

  -- If the file has no NUL and each line, and what follows the last newline, is shorter than 1023 bytes:
  -- with fuel for one read more than there are bytes, `grep` ends, and it has written the lines that match
  -- and end in a newline, in order, however the reads cut the file.
  pub grep_lem :
      (fuel : ℕ) (fd : File)
      → length (content fd) < fuel
      → LinesFit 0 (content fd)
      → grep reader pattern fuel fd ≡ some (matching_lines pattern [] (content fd))
  unfolding grep
  grep_lem fuel fd lt f = grep_loop_lem fuel [] fd lt tt f
