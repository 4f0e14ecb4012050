-- ===== src/User/Grep.antt =====
-- user/grep.c: the matcher of `^ . * $` patterns, and the loop that reads a file and writes the lines
-- that match. A C string is the list of its bytes before the NUL.
pub mod Matches
pub mod Lines
mod Tests
use operating_system_lab_pro.Prelude.{
  ℕ, zero, suc, ◌+◌, ◌-◌, Bool, true, false, ◌&&◌, ◌||◌, List, [], ◌∷◌, ◌++◌, length, ◌==◌, ◌≡◌,
  ◌≤◌, ◌<◌, if◌then◌else◌, Option, none, some,
}
use mathlib.Core.Option

abbrev pub caret : ℕ
caret = 94

abbrev pub dollar : ℕ
dollar = 36

abbrev pub star : ℕ
star = 42

abbrev pub dot : ℕ
dot = 46

abbrev pub newline : ℕ
newline = 10

-- `re[0]=='.' || re[0]==*text`
abbrev pub admits : (r c : ℕ) → Bool
admits r c = r == dot || r == c

-- The loop of `matchstar`, where `here` is `matchhere` at `re`.
unfoldable pub matchstar : (c : ℕ) (here : List ℕ → Bool) → (text : List ℕ) → Bool
matchstar c here [] = here []
matchstar c here (t ∷ text) =
    let rest = matchstar c here text in here (t ∷ text) || (admits c t && rest)

-- The test of one byte, where `here` is `matchhere` at `re + 1`.
unfoldable pub match_one : (r : ℕ) (here : List ℕ → Bool) → (text : List ℕ) → Bool
match_one r here [] = false
match_one r here (t ∷ text) = if admits r t then here text else false

abbrev pub is_end : List ℕ → Bool
is_end [] = true
is_end (t ∷ text) = false

unfoldable pub matchhere : (re text : List ℕ) → Bool
unfolding matchstar match_one
matchhere [] text = true
matchhere (r ∷ []) text = if r == dollar then is_end text else match_one r (matchhere []) text
matchhere (r ∷ r' ∷ re) text =
    let starred = matchstar r (matchhere re) text in
    let plain = match_one r (matchhere (r' ∷ re)) text in if r' == star then starred else plain

-- The loop of `match`, where `here` is `matchhere` at `re`.
unfoldable pub match_from : (here : List ℕ → Bool) → (text : List ℕ) → Bool
match_from here [] = here []
match_from here (t ∷ text) = let rest = match_from here text in here (t ∷ text) || rest

unfoldable pub match : (re text : List ℕ) → Bool
unfolding matchhere match_from
match [] text = match_from (matchhere []) text
match (r ∷ re) text = if r == caret then matchhere re text else match_from (matchhere (r ∷ re)) text

abbrev pub buf_size : ℕ
buf_size = 1024

-- The loop over the lines of the buffer, where `p` is the line so far: what it writes, and what is left
-- from `p` on. `strchr` looks no further than a NUL.
unfoldable pub lines : (pattern p buf : List ℕ) → List ℕ × List ℕ
unfolding match
lines pattern p [] = ([], p)
lines pattern p (c ∷ buf) =
    let (out, left) = lines pattern [] buf in
    let longer = lines pattern (p ++ (c ∷ [])) buf in
    if c == 0
    then ([], p ++ (c ∷ buf))
    else if c == newline
    then (if match pattern p then p ++ (newline ∷ out) else out, left)
    else longer

-- What `grep` asks of `read(fd, buf, k)`: the next bytes of the file, at most `k`, and none only at its end
-- or if `k` is 0.
pub record Reader : Type 1 where
  pub File : Type 0
  pub read : (k : ℕ) → File → List ℕ × File
  -- The bytes from the file's offset on.
  pub content : File → List ℕ
  pub read_next : (k : ℕ) (fd : File) → content fd ≡ (read k fd).0 ++ content (read k fd).1
  pub read-le : (k : ℕ) (fd : File) → length (read k fd).0 ≤ k
  pub read_some : (k : ℕ) (fd : File) → 0 < k → length (read k fd).0 ≡ 0 → content fd ≡ []

module _ (reader : Reader) where
  open reader use {File, read}

  -- The loop of `grep` on fuel, with `kept` at the start of `buf`: what it writes; `none` if the fuel is
  -- short.
  unfoldable pub grep_loop : (pattern : List ℕ) (fuel : ℕ) (kept : List ℕ) → File → Option (List ℕ)
  unfolding lines
  grep_loop pattern zero kept fd = none
  grep_loop pattern (suc fuel) kept fd =
      let (got, fd') = read (buf_size - length kept - 1) fd in
      let (out, left) = lines pattern [] (kept ++ got) in
      let rest = grep_loop pattern fuel left fd' in
      if length got == 0 then some [] else Option.map (λ out'. out ++ out') rest

  unfoldable pub grep : (pattern : List ℕ) (fuel : ℕ) → File → Option (List ℕ)
  unfolding grep_loop
  grep pattern fuel fd = grep_loop pattern fuel [] fd
