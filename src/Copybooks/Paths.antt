-- ===== src/Copybooks/Paths.antt =====
-- The path of the recursion: how it grows, and how many names are not on it yet.
use alsm_web_be.Base.{
  ℕ, ◌+◌, ◌≤◌, ◌<◌, true, false, ◌||◌, ◌≡◌, some, List, [], ◌∷◌, ◌++◌, arith, Bool-cases, inl, inr,
  ◌⊎◌, if◌then◌else◌, length,
}
use alsm_web_be.Copybooks.Units.{Units, same_units, same_units_iff, includes, get}

pub includes-append :
    (n m : Units) (path : List Units)
    → includes n (path ++ m ∷ []) ≡ (includes n path || same_units m n)
unfolding includes
includes-append n m [] = ground arith
includes-append n m (p ∷ path) = ground (arith, includes-append n m path)

pub includes-append_cases :
    (n m : Units) (path : List Units)
    → includes n (path ++ m ∷ []) ≡ true
    → (includes n path ≡ true) ⊎ (m ≡ n)
includes-append_cases n m path h = elim (Bool-cases (includes n path)) [
  | inl old ↦ inl old
  | inr new ↦ inr ((same_units_iff m n).0 (ground (arith, includes-append n m path)))
]

module _ {V : Type 0} where
  -- How many keys of the index are not on the path.
  unfoldable pub unvisited : List (Units × V) → List Units → ℕ
  unvisited [] path = 0
  unvisited ((k, v) ∷ index) path = (if includes k path then 0 else 1) + unvisited index path

  unvisited-append_le :
      (index : List (Units × V)) (path : List Units) (n : Units)
      → unvisited index (path ++ n ∷ []) ≤ unvisited index path
  unfolding unvisited
  unvisited-append_le [] path n = omega arith
  unvisited-append_le ((k, v) ∷ index) path n =
      ground (arith, includes-append k n path, unvisited-append_le index path n)

  -- A step to a name of the index that is not on the path leaves fewer names.
  pub unvisited-append :
      (index : List (Units × V)) (path : List Units) (n : Units) (v : V)
      → get n index ≡ some v
      → includes n path ≡ false
      → unvisited index (path ++ n ∷ []) < unvisited index path
  unfolding unvisited get
  unvisited-append [] path n v found new = cc
  unvisited-append ((k, w) ∷ index) path n v found new = elim (Bool-cases (same_units k n)) [
    | inl same ↦
        let e : k ≡ n = (same_units_iff k n).0 same in
        rw e (
          ground (
            arith,
            new,
            includes-append n n path,
            same_units_iff n n,
            unvisited-append_le index path n,
          ))
    | inr other ↦ ground (arith, other, includes-append k n path, unvisited-append index path n v)
  ]

  pub unvisited-le :
      (index : List (Units × V)) (path : List Units) → unvisited index path ≤ length index
  unfolding unvisited
  unvisited-le [] path = omega arith
  unvisited-le ((k, v) ∷ index) path = ground (arith, unvisited-le index path)
