-- ===== src/Copybooks/Entries.antt =====
-- copybook-dependency.types.ts, and what is read off a dependency tree: whether it is fully
-- resolved, and what blocks the conversion. An entry without `dependencies` has none here.
use alsm_web_be.Base.{
  ℕ, Bool, true, false, ◌&&◌, ◌||◌, Option, none, some, List, [], ◌∷◌, ◌++◌, if◌then◌else◌,
}
use alsm_web_be.Copybooks.Units.{Units, units_of}
use alsm_web_be.Copybooks.Names.{is_system_copybook}

pub data DependencyStatus : Type 0 where
  resolved missing ambiguous circular_dependency parse_error system_provided : DependencyStatus

abbrev pub is_resolved : DependencyStatus → Bool
is_resolved DependencyStatus.resolved = true
is_resolved _ = false

abbrev pub is_system_provided : DependencyStatus → Bool
is_system_provided DependencyStatus.system_provided = true
is_system_provided _ = false

abbrev pub is_missing : DependencyStatus → Bool
is_missing DependencyStatus.missing = true
is_missing _ = false

-- What an entry says itself, without the entries below it.
pub record Reference : Type 0 where
  pub copy_name : Units
  pub status : DependencyStatus
  pub line_number : ℕ
  pub resolved_file : Option Units
  pub candidates : List Units
  pub message : Option Units

mutual
  pub data Entry : Type 0 where
    entry : Reference → Entries → Entry

  pub data Entries : Type 0 where
    nil : Entries
    cons : Entry → Entries → Entries

unfoldable mutual
  pub is_fully_resolved : Entries → Bool
  is_fully_resolved nil = true
  is_fully_resolved (cons e es) = is_entry_resolved e && is_fully_resolved es

  pub is_entry_resolved : Entry → Bool
  is_entry_resolved (entry r below) =
      is_system_provided r.status || (is_resolved r.status && is_fully_resolved below)

-- A stored status as the message falls back to it.
abbrev status_units : DependencyStatus → Units
status_units DependencyStatus.resolved = units_of "RESOLVED"
status_units DependencyStatus.missing = units_of "MISSING"
status_units DependencyStatus.ambiguous = units_of "AMBIGUOUS"
status_units DependencyStatus.circular_dependency = units_of "CIRCULAR_DEPENDENCY"
status_units DependencyStatus.parse_error = units_of "PARSE_ERROR"
status_units DependencyStatus.system_provided = units_of "SYSTEM_PROVIDED"

-- `entry.message ?? …`
abbrev pub blocker_message : Reference → Units
blocker_message r = elim r.message [
  | some m ↦ m
  | none ↦ r.copy_name ++ units_of ": " ++ status_units r.status
]

unfoldable pub is_non_blocking : (Units → Units) → Reference → Bool
unfolding is_system_copybook
is_non_blocking to_lower r =
    is_resolved r.status
    || is_system_provided r.status
    || (is_missing r.status && is_system_copybook to_lower r.copy_name)

-- `findCopybookBlockers`
unfoldable mutual
  pub find_copybook_blockers : (Units → Units) → Entries → List Units
  find_copybook_blockers to_lower nil = []
  find_copybook_blockers to_lower (cons e es) =
      entry_blockers to_lower e ++ find_copybook_blockers to_lower es

  pub entry_blockers : (Units → Units) → Entry → List Units
  entry_blockers to_lower (entry r below) =
      let nested = find_copybook_blockers to_lower below in
      if is_non_blocking to_lower r then nested else blocker_message r ∷ []
