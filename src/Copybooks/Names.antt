-- ===== src/Copybooks/Names.antt =====
-- normalizeCopyName and isSystemCopybook. The argument `to_lower` is `String.prototype.toLowerCase`
-- on texts that are not all ASCII.
use alsm_web_be.Base.{
  ℕ, ◌+◌, Bool, false, ◌&&◌, ◌||◌, [], ◌∷◌, map, ltb, ◌==◌, any, all, is_space, if◌then◌else◌,
}
use alsm_web_be.Copybooks.Units.{Units, is_upper, is_letter, is_name_unit, is_either}

abbrev pub is_separator : ℕ → Bool
is_separator c = c == b'/' || c == 92

-- `name.split(/[/\\]/).pop()`: what stands after the last separator.
unfoldable pub basename : Units → Units
basename [] = []
basename (c ∷ r) = if any is_separator r then basename r else if is_separator c then r else c ∷ r

unfoldable pub trim_left : Units → Units
unfolding is_space
trim_left [] = []
trim_left (c ∷ r) = let rest = trim_left r in if is_space c then rest else c ∷ r

-- A space is dropped when nothing is left after it.
abbrev keep : ℕ → Units → Units
keep c [] = if is_space c then [] else c ∷ []
keep c (d ∷ r) = c ∷ d ∷ r

unfoldable pub trim_right : Units → Units
unfolding is_space
trim_right [] = []
trim_right (c ∷ r) = keep c (trim_right r)

abbrev pub lower_unit : ℕ → ℕ
lower_unit c = if is_upper c then c + 32 else c

unfoldable pub lower_case : (Units → Units) → Units → Units
lower_case to_lower t = if all (λ c. ltb c 128) t then map lower_unit t else to_lower t

-- `\.(cpy|cbl|cob)$`
unfoldable pub is_extension : Units → Bool
is_extension (dot ∷ a ∷ b ∷ c ∷ []) =
    dot == b'.'
    && is_either b'C' a
    && ((is_either b'P' b && is_either b'Y' c)
        || (is_either b'B' b && is_either b'L' c)
        || (is_either b'O' b && is_either b'B' c))
is_extension _ = false

unfoldable pub strip_extension : Units → Units
unfolding is_extension
strip_extension [] = []
strip_extension (c ∷ r) = if is_extension (c ∷ r) then [] else c ∷ strip_extension r

unfoldable pub normalize_copy_name : (Units → Units) → Units → Units
unfolding basename trim_left trim_right lower_case strip_extension
normalize_copy_name to_lower name =
    strip_extension (lower_case to_lower (trim_right (trim_left (basename name))))

-- `/^(DFH|CMQ)[A-Z0-9-]*$/i`
unfoldable pub is_system_name : Units → Bool
is_system_name (a ∷ b ∷ c ∷ r) =
    ((is_either b'D' a && is_either b'F' b && is_either b'H' c)
      || (is_either b'C' a && is_either b'M' b && is_either b'Q' c))
    && all is_name_unit r
is_system_name _ = false

unfoldable pub is_system_copybook : (Units → Units) → Units → Bool
unfolding is_system_name normalize_copy_name
is_system_copybook to_lower copy_name = is_system_name (normalize_copy_name to_lower copy_name)

abbrev is_letters : Units → Bool
is_letters [] = false
is_letters (c ∷ r) = all is_letter (c ∷ r)

-- `/\.[A-Za-z]+$/`
unfoldable pub has_extension : Units → Bool
has_extension [] = false
has_extension (c ∷ r) = (c == b'.' && is_letters r) || has_extension r
