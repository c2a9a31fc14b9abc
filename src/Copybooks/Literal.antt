-- ===== src/Copybooks/Literal.antt =====
-- A name as the statements spell it has one key, with or without an extension added.
use alsm_web_be.Base.{
  ℕ, Bool, true, false, ◌||◌, ◌≡◌, refl, [], ◌∷◌, ◌++◌, map, all, any, is_space, arith, ◌==◌, ltb,
}
use alsm_web_be.Copybooks.Units.{Units, units_of, is_name_unit}
use alsm_web_be.Copybooks.Names.{
  basename, trim_left, trim_right, lower_case, is_extension, strip_extension, normalize_copy_name,
  has_extension, is_separator, lower_unit,
}
use alsm_web_be.Copybooks.Resolver.{literal_key}

-- What stands in a name, and the dot of an extension.
abbrev is_file_unit : ℕ → Bool
is_file_unit c = is_name_unit c || c == b'.'

no_separator : (t : Units) → all is_file_unit t ≡ true → any is_separator t ≡ false
no_separator [] h = refl
no_separator (c ∷ r) h = ground (arith, no_separator r)

basename_lem : (t : Units) → all is_file_unit t ≡ true → basename t ≡ t
unfolding basename
basename_lem [] h = refl
basename_lem (c ∷ r) h = ground (arith, no_separator r)

trim_left_lem : (t : Units) → all is_file_unit t ≡ true → trim_left t ≡ t
unfolding trim_left is_space
trim_left_lem [] h = refl
trim_left_lem (c ∷ r) h = ground arith

trim_right_lem : (t : Units) → all is_file_unit t ≡ true → trim_right t ≡ t
unfolding trim_right is_space
trim_right_lem [] h = refl
trim_right_lem (c ∷ []) h = ground arith
trim_right_lem (c ∷ d ∷ r) h = let rest = trim_right_lem (d ∷ r) (ground arith) in rw rest

is_ascii-file : (t : Units) → all is_file_unit t ≡ true → all (λ c. ltb c 128) t ≡ true
is_ascii-file [] h = refl
is_ascii-file (c ∷ r) h = ground (arith, is_ascii-file r)

is_extension-dot : (c : ℕ) (r : Units) → (c == b'.') ≡ false → is_extension (c ∷ r) ≡ false
unfolding is_extension
is_extension-dot c [] h = refl
is_extension-dot c (x ∷ []) h = refl
is_extension-dot c (x ∷ y ∷ []) h = refl
is_extension-dot c (x ∷ y ∷ z ∷ []) h = rw h
is_extension-dot c (x ∷ y ∷ z ∷ w ∷ r) h = refl

strip_extension-append :
    (m x : Units)
    → all is_name_unit m ≡ true
    → strip_extension (map lower_unit m ++ x) ≡ map lower_unit m ++ strip_extension x
unfolding strip_extension
strip_extension-append [] x h = refl
strip_extension-append (c ∷ m) x h =
    let e = is_extension-dot (lower_unit c) (map lower_unit m ++ x) (ground arith) in
    rw (e, strip_extension-append m x (ground arith))

has_extension_lem : (m : Units) → all is_name_unit m ≡ true → has_extension m ≡ false
unfolding has_extension
has_extension_lem [] h = refl
has_extension_lem (c ∷ m) h = ground (arith, has_extension_lem m)

normalize_lem :
    (to_lower : Units → Units) (t : Units)
    → all is_file_unit t ≡ true
    → normalize_copy_name to_lower t ≡ strip_extension (map lower_unit t)
unfolding normalize_copy_name lower_case
normalize_lem to_lower t h =
    rw (basename_lem t h, trim_left_lem t h, trim_right_lem t h, is_ascii-file t h)

file_units : (m : Units) → all is_name_unit m ≡ true → all is_file_unit m ≡ true
file_units [] h = refl
file_units (c ∷ m) h = ground (arith, file_units m)

with_extension :
    (m : Units) → all is_name_unit m ≡ true → all is_file_unit (m ++ units_of ".cpy") ≡ true
with_extension [] h = refl
with_extension (c ∷ m) h = ground (arith, with_extension m)

map-append : (m x : Units) → map lower_unit (m ++ x) ≡ map lower_unit m ++ map lower_unit x
map-append [] x = refl
map-append (c ∷ m) x = rw (map-append m x)

append_nil : (m : Units) → m ++ [] ≡ m
append_nil [] = refl
append_nil (c ∷ m) = rw (append_nil m)

pub normalize-name :
    (to_lower : Units → Units) (m : Units)
    → all is_name_unit m ≡ true
    → normalize_copy_name to_lower m ≡ map lower_unit m
unfolding strip_extension
normalize-name to_lower m h = rw (
  normalize_lem to_lower m (file_units m h),
  ← append_nil (map lower_unit m),
  strip_extension-append m [] h,
)

pub literal_key-name :
    (to_lower : Units → Units) (m : Units)
    → all is_name_unit m ≡ true
    → literal_key to_lower m ≡ normalize_copy_name to_lower m
unfolding literal_key strip_extension is_extension
literal_key-name to_lower m h =
    rw
      (
        has_extension_lem m h,
        normalize-name to_lower m h,
        normalize_lem to_lower (m ++ units_of ".cpy") (with_extension m h),
        map-append m (units_of ".cpy"),
        strip_extension-append m (units_of ".cpy") h,
      )
      (append_nil (map lower_unit m))
