-- ===== src/User/Grep/Tests.antt =====
-- Runs of grep, and the theorems about it at concrete inputs.
use operating_system_lab_pro.Prelude.{
  ℕ, ◌<◌, ◌≡◌, ◌↔◌, refl, sym, true, false, List, [], ◌∷◌, length, length-take, take, drop,
  take-drop, arith, some, min,
}
use operating_system_lab_pro.User.Grep.{Reader, match, grep}
use operating_system_lab_pro.User.Grep.Matches.{Describes, match_iff}
use operating_system_lab_pro.User.Grep.Lines.{matching_lines, LinesFit, grep_lem}

-- `^a.*b$`
abbrev pattern : List ℕ
pattern = 94 ∷ 97 ∷ 46 ∷ 42 ∷ 98 ∷ 36 ∷ []

abbrev text : List ℕ
text = 97 ∷ 99 ∷ 100 ∷ 98 ∷ []

matched : match pattern text ≡ true
unfolding match
matched = refl

not_at_start : match pattern (99 ∷ text) ≡ false
unfolding match
not_at_start = refl

match_iff_example : (match pattern text ≡ true) ↔ Describes pattern text
match_iff_example = match_iff pattern text

end_of_file : (k : ℕ) (fd : List ℕ) → 0 < k → length (take (min k 2) fd) ≡ 0 → fd ≡ []
end_of_file k [] lt e = refl
end_of_file k (b ∷ fd) lt e = absurd (omega (arith, length-take (min k 2) (b ∷ fd)))

-- A file that gives two bytes at a time.
abbrev slow : Reader
slow = record {
  File = List ℕ;
  read = λ k fd. (take (min k 2) fd, drop (min k 2) fd);
  content = λ fd. fd;
  read_next = λ k fd. sym (take-drop (min k 2) fd);
  read-le = λ k fd. omega (arith, length-take (min k 2) fd);
  read_some = end_of_file;
}

-- `cab`, `c` and `a`, of which the last has no newline.
abbrev file : List ℕ
file = 99 ∷ 97 ∷ 98 ∷ 10 ∷ 99 ∷ 10 ∷ 97 ∷ []

found : grep slow (97 ∷ []) 8 file ≡ some (99 ∷ 97 ∷ 98 ∷ 10 ∷ [])
unfolding grep
found = refl

file-LinesFit : LinesFit 0 file
unfolding LinesFit
file-LinesFit = (
  omega arith,
  omega arith,
  (
    omega arith,
    omega arith,
    (
      omega arith,
      omega arith,
      (
        omega arith,
        omega arith,
        (
          omega arith,
          omega arith,
          (omega arith, omega arith, (omega arith, omega arith, omega arith)),
        ),
      ),
    ),
  ),
)

grep_lem_example : grep slow (97 ∷ []) 8 file ≡ some (matching_lines (97 ∷ []) [] file)
grep_lem_example = grep_lem slow (97 ∷ []) 8 file (omega arith) file-LinesFit
