-- ===== src/Copybooks/Statements.antt =====
-- stripComments and extractCopyStatements: the COPY statements of a source text.
use alsm_web_be.Base.{
  ℕ, zero, suc, ◌+◌, ◌-◌, Bool, true, false, not, ◌&&◌, Option, none, some, List, [], ◌∷◌, ◌++◌,
  ◌==◌, length, map, is_space, if◌then◌else◌,
}
use alsm_web_be.Copybooks.Units.{Units, is_alphanumeric, is_word, is_name_unit, is_either}

-- `source.split('\n')`
unfoldable pub lines : Units → List Units
lines [] = [] ∷ []
lines (c ∷ r) = elim (lines r) [
  | [] ↦ (c ∷ []) ∷ []
  | l ∷ ls ↦ if c == 10 then [] ∷ l ∷ ls else (c ∷ l) ∷ ls
]

-- `lines.join('\n')`
unfoldable pub join_lines : List Units → Units
join_lines [] = []
join_lines (l ∷ []) = l
join_lines (l ∷ m ∷ ls) = l ++ 10 ∷ join_lines (m ∷ ls)

-- `line.length > 6 && line[6] === '*'`
unfoldable pub is_fixed_comment : Units → Bool
is_fixed_comment (a ∷ b ∷ c ∷ d ∷ e ∷ f ∷ g ∷ r) = g == b'*'
is_fixed_comment _ = false

abbrev starts_inline : ℕ → Units → Bool
starts_inline c [] = false
starts_inline c (d ∷ r) = c == b'*' && d == b'>'

-- The line up to the first `*>`.
unfoldable pub before_inline : Units → Units
before_inline [] = []
before_inline (c ∷ r) = if starts_inline c r then [] else c ∷ before_inline r

unfoldable pub strip_line : Units → Units
unfolding is_fixed_comment before_inline
strip_line l = if is_fixed_comment l then [] else before_inline l

unfoldable pub strip_comments : Units → Units
unfolding lines join_lines strip_line
strip_comments source = join_lines (map strip_line (lines source))

pub record Statement : Type 0 where
  pub copy_name : Units
  pub line_number : ℕ

-- `[A-Za-z0-9-]*`, as long as it goes.
unfoldable pub name_units : Units → Units
name_units [] = []
name_units (c ∷ r) = if is_name_unit c then c ∷ name_units r else []

-- `\s+([A-Za-z0-9][A-Za-z0-9-]*)`: the name, and how long the match is. `some_space` tells whether
-- a space was read already.
unfoldable pub copied_name : Bool → ℕ → Units → Option (Units × ℕ)
unfolding is_space name_units
copied_name some_space n [] = none
copied_name some_space n (c ∷ r) =
    let rest = copied_name true (n + 1) r in
    if is_space c
    then rest
    else if some_space && is_alphanumeric c
    then some (c ∷ name_units r, n + 1 + length (name_units r))
    else none

-- The pattern at one place; `after_word` tells whether a word character stands before it.
unfoldable pub match_copy : Bool → Units → Option (Units × ℕ)
unfolding copied_name
match_copy after_word (c ∷ o ∷ p ∷ y ∷ r) =
    if not after_word
      && is_either b'C' c
      && is_either b'O' o
      && is_either b'P' p
      && is_either b'Y' y
    then copied_name false 4 r
    else none
match_copy after_word _ = none

abbrev pub next_line : ℕ → ℕ → ℕ
next_line c line = if c == 10 then line + 1 else line

-- `matchAll`: from left to right, where `skip` units of the last match are still to be passed.
unfoldable pub scan : ℕ → Bool → ℕ → Units → List Statement
unfolding match_copy
scan skip after_word line [] = []
scan (suc skip) after_word line (c ∷ r) = scan skip (is_word c) (next_line c line) r
scan zero after_word line (c ∷ r) = elim (match_copy after_word (c ∷ r)) [
  | none ↦ scan 0 (is_word c) (next_line c line) r
  | some (name, n) ↦
      record { copy_name = name; line_number = line }
      ∷ scan (n - 1) (is_word c) (next_line c line) r
]

unfoldable pub extract_copy_statements : Units → List Statement
unfolding strip_comments scan
extract_copy_statements source = scan 0 false 1 (strip_comments source)
