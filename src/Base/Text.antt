-- ===== src/Base/Text.antt =====
-- Text as the code reads it: `trim`, hexadecimal patterns, and the truth of an optional string.
use Prim.Native.Nat.{ℕ, zero, suc, ◌+◌}
use Prim.Native.Char.{Char, code}
use Prim.Native.String.{String, [], ◌∷◌}
use mathlib.Core.Bool.{Bool, true, false, not, ◌&&◌, ◌||◌}
use mathlib.Core.Option.{Option, none, some}
use mathlib.Core.List.{List}
use alsm_web_be.Base.Tests.{leb, ltb, ◌==◌, if◌then◌else◌}

-- The white space and line ends of ECMAScript.
unfoldable pub is_space : ℕ → Bool
is_space c =
    (leb 9 c && leb c 13)
    || (c == 32)
    || (c == 160)
    || (c == 5760)
    || (leb 8192 c && leb c 8202)
    || (c == 8232)
    || (c == 8233)
    || (c == 8239)
    || (c == 8287)
    || (c == 12288)
    || (c == 65279)

abbrev pub is_empty : String → Bool
is_empty [] = true
is_empty (c ∷ s) = false

unfoldable pub trim_start : String → String
unfolding is_space
trim_start [] = []
trim_start (c ∷ s) =
    let rest = trim_start s in elim (is_space (code c)) [ true ↦ rest | false ↦ c ∷ s ]

-- A space is dropped when nothing is left after it.
abbrev pub keep_before : Char → String → String
keep_before c [] = elim (is_space (code c)) [ true ↦ [] | false ↦ c ∷ [] ]
keep_before c (d ∷ s) = c ∷ d ∷ s

unfoldable pub trim_end : String → String
unfolding is_space
trim_end [] = []
trim_end (c ∷ s) = keep_before c (trim_end s)

-- `String.prototype.trim`.
unfoldable pub trim : String → String
unfolding trim_start trim_end
trim s = trim_end (trim_start s)

-- An optional string as a condition: absent and "" are false.
abbrev pub is_truthy : Option String → Bool
is_truthy none = false
is_truthy (some s) = not (is_empty s)

-- `value?.trim()` as a condition.
abbrev pub is_truthy_trimmed : Option String → Bool
is_truthy_trimmed none = false
is_truthy_trimmed (some s) = not (is_empty (trim s))

unfoldable pub is_hex_lower : ℕ → Bool
is_hex_lower c = (leb b'0' c && leb c b'9') || (leb b'a' c && leb c b'f')

unfoldable pub is_hex : ℕ → Bool
unfolding is_hex_lower
is_hex c = is_hex_lower c || (leb b'A' c && leb c b'F')

-- The patterns `/^[…]{n}$/` over one class of characters.
unfoldable pub is_run_of : (ℕ → Bool) → ℕ → String → Bool
is_run_of p zero [] = true
is_run_of p zero (c ∷ s) = false
is_run_of p (suc n) [] = false
is_run_of p (suc n) (c ∷ s) = p (code c) && is_run_of p n s

-- The length of a string in UTF-16 code units.
unfoldable pub units : String → ℕ
units [] = 0
units (c ∷ s) = (if ltb (code c) 65536 then 1 else 2) + units s

-- One class of characters after the other, as in a pattern `/^…$/`.
unfoldable pub matches : List (ℕ → Bool) → String → Bool
matches List.[] [] = true
matches List.[] (c ∷ s) = false
matches (List.◌∷◌ p ps) [] = false
matches (List.◌∷◌ p ps) (c ∷ s) = p (code c) && matches ps s

abbrev pub times : ℕ → (ℕ → Bool) → List (ℕ → Bool) → List (ℕ → Bool)
times zero p ps = ps
times (suc n) p ps = List.◌∷◌ p (times n p ps)

abbrev pub is_char : ℕ → ℕ → Bool
is_char a c = c == a
