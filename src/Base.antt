-- ===== src/Base.antt =====
-- The names that the components share: the libraries', passed on, and those of the children.
mod Tests
mod Lists
mod Collection
mod Text
pub use Text.{is_empty, is_truthy, is_truthy_trimmed, times, is_char}
unfoldable pub use Text.{is_space, trim, is_hex_lower, is_hex, is_run_of, units, matches}
pub use Tests.*
pub use Lists.*
pub use Collection.{
  Table, find_one-cases, lookup-insert, lookup-insert_self, lookup-insert_ne, lookup-insert_cases,
  found_one, missed_one, find_first-insert,
}
unfoldable pub use Collection.{lookup, insert, find_one, find_first, any_entry}
pub use Prim.Native.Nat.{ℕ, zero, suc, ◌+◌, ◌-◌, ◌*◌, ◌/◌, ◌%◌, ◌≤◌, ◌<◌, min, max}
pub use Prim.Native.String.{String}
pub use mathlib.Core.Path.{◌≡◌, refl, sym, ap, ◌∙◌}
pub use mathlib.Core.Logic.{◌≢◌, ◌↔◌, ◌⊎◌, inl, inr}
pub use mathlib.Core.Bool.{Bool, true, false, not, ◌&&◌, ◌||◌}
pub use mathlib.Core.Option.{Option, none, some}
pub use mathlib.Core.List.{List, [], ◌∷◌, ◌++◌, map, filter}
pub use native.Mathlib.Omega.{arith}
