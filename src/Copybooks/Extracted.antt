-- ===== src/Copybooks/Extracted.antt =====
-- What extractCopyStatements finds: names of letters, digits and dashes, on lines of the source.
use alsm_web_be.Base.{
  ℕ, zero, suc, ◌+◌, ◌-◌, Bool, true, false, not, ◌&&◌, ◌≡◌, refl, none, some, List, [], ◌∷◌,
  length, all, is_space, arith, Bool-cases, Option-cases, inl, inr, if◌then◌else◌, leb, ◌==◌, ◌≤◌,
}
use alsm_web_be.Copybooks.Units.{Units, is_name_unit, is_word, is_alphanumeric, is_either}
use alsm_web_be.Copybooks.Statements.{
  Statement, name_units, copied_name, match_copy, next_line, scan, strip_comments,
  extract_copy_statements,
}

name_units_lem : (r : Units) → all is_name_unit (name_units r) ≡ true
unfolding name_units
name_units_lem [] = refl
name_units_lem (c ∷ r) = ground (arith, name_units_lem r)

-- A name of the pattern.
abbrev pub is_copy_name : Units → Bool
is_copy_name [] = false
is_copy_name (c ∷ r) = is_alphanumeric c && all is_name_unit r

copied_name_lem :
    (b : Bool) (n k : ℕ) (r name : Units)
    → copied_name b n r ≡ some (name, k)
    → is_copy_name name ≡ true
unfolding copied_name
copied_name_lem b n k [] name e = cc
copied_name_lem b n k (c ∷ r) name e = elim (Bool-cases (is_space c)) [
  | inl space ↦ copied_name_lem true (n + 1) k r name (rw space at e)
  | inr other ↦ elim (Bool-cases (b && is_alphanumeric c)) [
    | inl first ↦
        let eq : some (c ∷ name_units r, n + 1 + length (name_units r)) ≡ some (name, k) =
          rw (other, first) at e in
        let same : c ∷ name_units r ≡ name = cc in rw (← same) (ground (arith, name_units_lem r))
    | inr bad ↦ let eq : none ≡ some (name, k) = rw (other, bad) at e in cc
  ]
]

match_copy_lem :
    (b : Bool) (k : ℕ) (r name : Units) → match_copy b r ≡ some (name, k) → is_copy_name name ≡ true
unfolding match_copy
match_copy_lem b k (c ∷ o ∷ p ∷ y ∷ r) name e =
    under_if (not b && is_either b'C' c && is_either b'O' o && is_either b'P' p && is_either b'Y' y)
      e
  where
    under_if :
        (t : Bool)
        → (if t then copied_name false 4 r else none) ≡ some (name, k)
        → is_copy_name name ≡ true
    under_if true h = copied_name_lem false 4 k r name h
    under_if false h = cc
match_copy_lem b k [] name e = cc
match_copy_lem b k (c ∷ []) name e = cc
match_copy_lem b k (c ∷ o ∷ []) name e = cc
match_copy_lem b k (c ∷ o ∷ p ∷ []) name e = cc

-- Line ends.
abbrev pub ends : Units → ℕ
ends [] = 0
ends (c ∷ r) = (if c == 10 then 1 else 0) + ends r

-- A statement between two lines.
abbrev pub is_between : ℕ → ℕ → Statement → Bool
is_between first last s =
    is_copy_name s.copy_name && leb first s.line_number && leb s.line_number last

is_between-all :
    (a b c d : ℕ) (ss : List Statement)
    → a ≤ b
    → c ≤ d
    → all (is_between b c) ss ≡ true
    → all (is_between a d) ss ≡ true
is_between-all a b c d [] low high h = refl
is_between-all a b c d (s ∷ ss) low high h = ground (arith, is_between-all a b c d ss low high)

wider :
    (c line : ℕ) (r : Units) (ss : List Statement)
    → all (is_between (next_line c line) (next_line c line + ends r)) ss ≡ true
    → all (is_between line (line + ends (c ∷ r))) ss ≡ true
wider c line r ss h =
    is_between-all line (next_line c line) (next_line c line + ends r) (line + ends (c ∷ r)) ss
      (ground arith) (ground arith) h

between-cons :
    (name : Units) (line last : ℕ) (ss : List Statement)
    → is_copy_name name ≡ true
    → line ≤ last
    → all (is_between line last) ss ≡ true
    → all (is_between line last) (record { copy_name = name; line_number = line } ∷ ss) ≡ true
between-cons name line last ss named low h =
    let first : is_between line last (record { copy_name = name; line_number = line }) ≡ true =
      rw named (ground arith) in
    rw (first, all) h

scan_lem :
    (skip : ℕ) (b : Bool) (line : ℕ) (r : Units)
    → all (is_between line (line + ends r)) (scan skip b line r) ≡ true
unfolding scan
scan_lem skip b line [] = refl
scan_lem (suc skip) b line (c ∷ r) =
    let rest : List Statement = scan skip (is_word c) (next_line c line) r in
    wider c line r rest (scan_lem skip (is_word c) (next_line c line) r)
scan_lem zero b line (c ∷ r) = elim (Option-cases (match_copy b (c ∷ r))) [
  | inl missed ↦
      let rest : List Statement = scan 0 (is_word c) (next_line c line) r in
      let step : scan 0 b line (c ∷ r) ≡ rest = rw (missed, scan) in
      rw step (wider c line r rest (scan_lem 0 (is_word c) (next_line c line) r))
  | inr ((name, n), hit) ↦
      let rest : List Statement = scan (n - 1) (is_word c) (next_line c line) r in
      let step : scan 0 b line (c ∷ r) ≡ record { copy_name = name; line_number = line } ∷ rest =
        rw (hit, scan) in
      let later = wider c line r rest (scan_lem (n - 1) (is_word c) (next_line c line) r) in
      rw step (
        between-cons name line (line + ends (c ∷ r)) rest (match_copy_lem b n (c ∷ r) name hit)
          (omega arith) later)
]

pub extract_lem :
    (source : Units)
    → all (is_between 1 (1 + ends (strip_comments source))) (extract_copy_statements source) ≡ true
unfolding extract_copy_statements
extract_lem source = scan_lem 0 false 1 (strip_comments source)
