-- ===== src/Copybooks/Units.antt =====
-- Text as the code indexes it, a list of UTF-16 code units, with the classes of characters that the
-- patterns name, and JavaScript's Map with such keys.
use Prim.Native.Char.{code}
use Prim.Native.String.{String}
use alsm_web_be.Base.{
  ℕ, ◌+◌, Bool, true, false, ◌&&◌, ◌||◌, ◌≡◌, refl, ◌↔◌, Option, none, some, List, [], ◌∷◌, leb,
  ◌==◌, arith, if◌then◌else◌,
}

abbrev pub Units : Type 0
Units = List ℕ

-- A text of the source's own, all of it ASCII.
abbrev pub units_of : String → Units
units_of String.[] = []
units_of (String.◌∷◌ c s) = code c ∷ units_of s

unfoldable pub same_units : Units → Units → Bool
same_units [] [] = true
same_units [] (c ∷ r) = false
same_units (c ∷ r) [] = false
same_units (c ∷ r) (d ∷ s) = c == d && same_units r s

pub same_units_iff : (s t : Units) → (same_units s t ≡ true) ↔ (s ≡ t)
unfolding same_units
same_units_iff [] [] = ground arith
same_units_iff [] (c ∷ r) = ground arith
same_units_iff (c ∷ r) [] = ground arith
same_units_iff (c ∷ r) (d ∷ s) = ground (arith, same_units_iff r s)

-- `list.includes(name)`
unfoldable pub includes : Units → List Units → Bool
includes n [] = false
includes n (m ∷ ms) = same_units m n || includes n ms

abbrev pub is_upper : ℕ → Bool
is_upper c = leb b'A' c && leb c b'Z'

abbrev pub is_letter : ℕ → Bool
is_letter c = is_upper c || (leb b'a' c && leb c b'z')

abbrev pub is_alphanumeric : ℕ → Bool
is_alphanumeric c = is_letter c || (leb b'0' c && leb c b'9')

-- `\w`
abbrev pub is_word : ℕ → Bool
is_word c = is_alphanumeric c || c == b'_'

-- `[A-Za-z0-9-]`
abbrev pub is_name_unit : ℕ → Bool
is_name_unit c = is_alphanumeric c || c == b'-'

-- The letter whose capital is `upper`, in a pattern with the flag `i`.
abbrev pub is_either : ℕ → ℕ → Bool
is_either upper c = c == upper || c == upper + 32

module _ {ℓ} {V : Type ℓ} where
  -- `map.get(key)`
  unfoldable pub get : Units → List (Units × V) → Option V
  get k [] = none
  get k ((j, v) ∷ m) = if same_units j k then some v else get k m

  -- `map.set(key, value)`
  unfoldable pub set : Units → V → List (Units × V) → List (Units × V)
  set k v [] = (k, v) ∷ []
  set k v ((j, w) ∷ m) = if same_units j k then (j, v) ∷ m else (j, w) ∷ set k v m

  pub get-set :
      (k j : Units) (v : V) (m : List (Units × V))
      → get j (set k v m) ≡ (if same_units k j then some v else get j m)
  unfolding get set
  get-set k j v [] = refl
  get-set k j v ((i, w) ∷ m) =
      ground (arith, same_units_iff k j, same_units_iff i k, same_units_iff i j, get-set k j v m)
