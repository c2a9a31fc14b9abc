-- ===== src/Copybooks/Lines.antt =====
-- Comments are blanked line by line, and the lines stay where they are.
use alsm_web_be.Base.{
  ℕ, ◌+◌, true, false, ◌≡◌, ◌≢◌, refl, sym, ◌∙◌, ap, List, [], ◌∷◌, ◌++◌, length, map, all, arith,
  Bool-cases, inl, inr, if◌then◌else◌, ◌==◌,
}
use alsm_web_be.Copybooks.Units.{Units}
use alsm_web_be.Copybooks.Statements.{
  lines, join_lines, strip_line, before_inline, strip_comments, extract_copy_statements,
}
use alsm_web_be.Copybooks.Extracted.{ends, is_between, extract_lem}

prepend : ℕ → List Units → List Units
prepend c [] = (c ∷ []) ∷ []
prepend c (l ∷ ls) = (c ∷ l) ∷ ls

lines-nil : lines [] ≡ [] ∷ []
unfolding lines
lines-nil = refl

lines-not_nil : (s : Units) → lines s ≢ []
unfolding lines
lines-not_nil [] e = cc
lines-not_nil (c ∷ r) e = by_lines (lines r) e
  where
    by_lines :
        (ls : List Units)
        → elim ls as (λ _. List Units) [
          | [] ↦ (c ∷ []) ∷ []
          | l ∷ ls ↦ if c == 10 then [] ∷ l ∷ ls else (c ∷ l) ∷ ls
        ]
          ≢ []
    by_lines [] e = cc
    by_lines (l ∷ ls) e = ground arith

lines-end : (r : Units) → lines (10 ∷ r) ≡ [] ∷ lines r
unfolding lines
lines-end r = by_lines (lines r) (lines-not_nil r)
  where
    by_lines :
        (ls : List Units)
        → ls ≢ []
        → elim ls as (λ _. List Units) [ [] ↦ (10 ∷ []) ∷ [] | l ∷ ls ↦ [] ∷ l ∷ ls ] ≡ [] ∷ ls
    by_lines [] h = absurd (h refl)
    by_lines (l ∷ ls) h = refl

lines-other : (c : ℕ) (r : Units) → (c == 10) ≡ false → lines (c ∷ r) ≡ prepend c (lines r)
unfolding lines prepend
lines-other c r h = by_lines (lines r)
  where
    by_lines :
        (ls : List Units)
        → elim ls as (λ _. List Units) [
          | [] ↦ (c ∷ []) ∷ []
          | l ∷ ls ↦ if c == 10 then [] ∷ l ∷ ls else (c ∷ l) ∷ ls
        ]
          ≡ prepend c ls
    by_lines [] = refl
    by_lines (l ∷ ls) = rw h

length-prepend : (c : ℕ) (ls : List Units) → ls ≢ [] → length (prepend c ls) ≡ length ls
unfolding prepend
length-prepend c [] h = absurd (h refl)
length-prepend c (l ∷ ls) h = refl

pub length-lines : (s : Units) → length (lines s) ≡ 1 + ends s
length-lines [] = ap length lines-nil
length-lines (c ∷ r) = elim (Bool-cases (c == 10)) [
  | inl end ↦ let e : c ≡ 10 = ground arith in rw (e, lines-end r) (omega (arith, length-lines r))
  | inr other ↦
      rw (lines-other c r other, length-prepend c (lines r) (lines-not_nil r), other)
        (omega (arith, length-lines r))
]

-- A line has no line end in it.
AllClean : List Units → Type 0
AllClean [] = Unit {0}
AllClean (l ∷ ls) = (ends l ≡ 0) × AllClean ls

lines-line : (l : Units) → ends l ≡ 0 → lines l ≡ l ∷ []
unfolding lines prepend
lines-line [] h = refl
lines-line (c ∷ r) h =
    let other : (c == 10) ≡ false = ground arith in
    rw (lines-other c r other, lines-line r (ground arith))

lines-append : (l r : Units) → ends l ≡ 0 → lines (l ++ 10 ∷ r) ≡ l ∷ lines r
unfolding prepend
lines-append [] r h = lines-end r
lines-append (c ∷ l) r h =
    let other : (c == 10) ≡ false = ground arith in
    rw (lines-other c (l ++ 10 ∷ r) other, lines-append l r (ground arith))

lines-join_lines : (ls : List Units) → ls ≢ [] → AllClean ls → lines (join_lines ls) ≡ ls
unfolding join_lines AllClean
lines-join_lines [] h clean = absurd (h refl)
lines-join_lines (l ∷ []) h clean = lines-line l clean.0
lines-join_lines (l ∷ m ∷ ls) h clean =
    rw (lines-append l (join_lines (m ∷ ls)) clean.0, lines-join_lines (m ∷ ls) (λ e. cc) clean.1)

before_inline-ends : (l : Units) → ends l ≡ 0 → ends (before_inline l) ≡ 0
unfolding before_inline
before_inline-ends [] h = refl
before_inline-ends (c ∷ r) h = ground (arith, before_inline-ends r)

strip_line-ends : (l : Units) → ends l ≡ 0 → ends (strip_line l) ≡ 0
unfolding strip_line
strip_line-ends l h = ground (arith, before_inline-ends l)

prepend-clean :
    (c : ℕ) (ls : List Units) → (c == 10) ≡ false → AllClean ls → AllClean (prepend c ls)
unfolding prepend AllClean
prepend-clean c [] h clean = (ground arith, _)
prepend-clean c (l ∷ ls) h clean = (ground arith, clean.1)

lines-clean : (s : Units) → AllClean (lines s)
unfolding AllClean
lines-clean [] = rw lines-nil (refl, _)
lines-clean (c ∷ r) = elim (Bool-cases (c == 10)) [
  | inl end ↦ let e : c ≡ 10 = ground arith in rw (e, lines-end r) (refl, lines-clean r)
  | inr other ↦ rw (lines-other c r other) (prepend-clean c (lines r) other (lines-clean r))
]

strip_lines-clean : (ls : List Units) → AllClean ls → AllClean (map strip_line ls)
unfolding AllClean
strip_lines-clean [] clean = clean
strip_lines-clean (l ∷ ls) clean = (strip_line-ends l clean.0, strip_lines-clean ls clean.1)

map-not_nil : (ls : List Units) → ls ≢ [] → map strip_line ls ≢ []
map-not_nil [] h = h
map-not_nil (l ∷ ls) h = λ e. cc

length-map : (ls : List Units) → length (map strip_line ls) ≡ length ls
length-map [] = refl
length-map (l ∷ ls) = rw (length-map ls)

-- The lines of a source with its comments stripped are the lines of the source, each stripped:
-- joining and splitting again loses no line, adds none and moves none.
pub lines-strip_comments :
    (source : Units) → lines (strip_comments source) ≡ map strip_line (lines source)
unfolding strip_comments
lines-strip_comments source =
    lines-join_lines (map strip_line (lines source)) (map-not_nil _ (lines-not_nil source))
      (strip_lines-clean _ (lines-clean source))

-- Every COPY statement that is found has a name that starts with a letter or a digit and goes on
-- with letters, digits and dashes, and a line number between 1 and the number of lines of the
-- source, comments included.
pub extract_copy_statements-lines :
    (source : Units)
    → all (is_between 1 (length (lines source))) (extract_copy_statements source) ≡ true
extract_copy_statements-lines source =
    let kept : length (lines (strip_comments source)) ≡ length (lines source) =
      rw (lines-strip_comments source) (length-map (lines source)) in
    let last : 1 + ends (strip_comments source) ≡ length (lines source) =
      sym (length-lines (strip_comments source)) ∙ kept in
    rw last at (extract_lem source)
