-- ===== src/Support/Context.antt =====
-- support-context.entity.ts: the time-limited, read-only access of a support actor to one
-- organization. Times are milliseconds. A clock reading that is no valid date is `none`; the dates
-- of the properties are valid ones.
use alsm_web_be.Base.{
  ℕ, ◌+◌, String, Bool, true, false, not, ◌&&◌, ◌||◌, Option, none, some, [], ◌∷◌, min, units, ltb,
  leb, ◌==◌, str_eq, is_empty, is_run_of, is_hex_lower, exists_value, matches, times, is_char,
  if◌then◌else◌,
}

-- SUPPORT_CONTEXT_POLICY
abbrev pub absolute_lifetime_ms : ℕ
absolute_lifetime_ms = 1800000

abbrev pub idle_timeout_ms : ℕ
idle_timeout_ms = 900000

abbrev policy_reference : String
policy_reference = "UC66-TO-2026-11-01"

pub data ContextState : Type 0 where
  active exited expired revoked : ContextState

abbrev pub is_active_state : ContextState → Bool
is_active_state ContextState.active = true
is_active_state _ = false

pub record Context : Type 0 where
  pub id : String
  pub actor_user_id : String
  pub original_session_id : String
  pub session_version : String
  pub authority_binding : String
  pub organization_id : String
  pub audience : String
  pub read_only : Bool
  pub policy_reference : String
  pub state : ContextState
  pub revision : ℕ
  pub created_at : ℕ
  pub last_activity_at : ℕ
  pub expires_at : ℕ
  pub ended_at : Option ℕ

pub data ContextError : Type 0 where
  invalid_support_context support_context_inactive support_clock_unavailable : ContextError

pub data Result (A : Type 0) : Type 0 where
  ok : A → Result A
  error : ContextError → Result A

-- `[89ab]`
abbrev is_variant : ℕ → Bool
is_variant c = c == b'8' || c == b'9' || c == b'a' || c == b'b'

unfoldable pub is_uuid : String → Bool
unfolding matches is_hex_lower
is_uuid s =
    matches
      (times 8 is_hex_lower (
        is_char b'-'
        ∷ times 4 is_hex_lower (
            is_char b'-'
            ∷ is_char b'4'
            ∷ times 3 is_hex_lower (
                is_char b'-'
                ∷ is_variant
                ∷ times 3 is_hex_lower (is_char b'-' ∷ times 12 is_hex_lower [])))))
      s

abbrev is_hex_id : String → Bool
is_hex_id s = is_run_of is_hex_lower 24 s

abbrev is_ended_well : Context → Bool
is_ended_well c =
    if is_active_state c.state
    then not (exists_value c.ended_at)
    else elim c.ended_at [ none ↦ false | some t ↦ leb c.last_activity_at t ]

-- The times of a context, and its revision.
unfoldable pub is_timely : Context → Bool
is_timely c =
    leb c.revision 9007199254740991
    && leb 1 c.revision
    && ltb c.created_at c.expires_at
    && leb c.expires_at (c.created_at + absolute_lifetime_ms)
    && leb c.created_at c.last_activity_at
    && ltb c.last_activity_at c.expires_at
    && is_ended_well c

-- The identity of a context, which nothing changes.
unfoldable pub is_identified : Context → Bool
unfolding is_uuid is_run_of is_hex_lower units
is_identified c =
    is_uuid c.id
    && is_hex_id c.actor_user_id
    && is_hex_id c.original_session_id
    && is_hex_id c.organization_id
    && not (is_empty c.session_version)
    && leb (units c.session_version) 200
    && is_run_of is_hex_lower 64 c.authority_binding
    && str_eq c.audience "UC66"
    && c.read_only
    && str_eq c.policy_reference policy_reference

unfoldable pub from_persistence : Context → Result Context
from_persistence c = if is_identified c && is_timely c then ok c else error invalid_support_context

pub record CreateContext : Type 0 where
  pub id : String
  pub actor_user_id : String
  pub original_session_id : String
  pub session_version : String
  pub authority_binding : String
  pub organization_id : String
  pub now : ℕ
  pub authority_expires_at : ℕ

unfoldable pub new_context : CreateContext → Context
new_context i = record {
  id = i.id;
  actor_user_id = i.actor_user_id;
  original_session_id = i.original_session_id;
  session_version = i.session_version;
  authority_binding = i.authority_binding;
  organization_id = i.organization_id;
  audience = "UC66";
  read_only = true;
  policy_reference = policy_reference;
  state = ContextState.active;
  revision = 1;
  created_at = i.now;
  last_activity_at = i.now;
  expires_at = min (i.now + absolute_lifetime_ms) i.authority_expires_at;
  ended_at = none;
}

unfoldable pub create : CreateContext → Result Context
create i = from_persistence (new_context i)

unfoldable pub idle_expires_at : Context → ℕ
idle_expires_at c = min c.expires_at (c.last_activity_at + idle_timeout_ms)

-- `checkClock`: the reading, if it can be trusted.
unfoldable pub check_clock : Option ℕ → Context → Result ℕ
check_clock none c = error support_clock_unavailable
check_clock (some now) c =
    if ltb now c.last_activity_at then error support_clock_unavailable else ok now

unfoldable pub is_active : Option ℕ → Context → Result Bool
unfolding idle_expires_at
is_active now c = elim (check_clock now c) [
  | error e ↦ error e
  | ok t ↦ ok (is_active_state c.state && ltb t c.expires_at && ltb t (idle_expires_at c))
]

-- What `captureActivityWindow` remembers for the function that it returns.
unfoldable pub capture_activity_window : Context → Result Context
capture_activity_window c = from_persistence c

-- The function that `captureActivityWindow` returns, for the context as it was committed and as it
-- is when the function is called.
unfoldable pub captured_window : Context → Option ℕ → Context → Result Bool
captured_window committed now c = elim (is_active now committed) [
  | error e ↦ error e
  | ok false ↦ ok false
  | ok true ↦ is_active now c
]

unfoldable pub activity : Option ℕ → Context → Result Context
activity now c = elim (is_active now c) [
  | error e ↦ error e
  | ok false ↦ error support_context_inactive
  | ok true ↦ elim now [
    | none ↦ error support_clock_unavailable
    | some t ↦ ok (record c { last_activity_at = t; revision = c.revision + 1 })
  ]
]

-- How a context ends; ACTIVE is no way to end.
pub data Ending : Type 0 where
  exit expire revoke : Ending

abbrev pub ending_state : Ending → ContextState
ending_state exit = ContextState.exited
ending_state expire = ContextState.expired
ending_state revoke = ContextState.revoked

-- Whether this call ended the context, and the context.
unfoldable pub end_context : Ending → Option ℕ → Context → Result (Bool × Context)
end_context how now c = elim (check_clock now c) [
  | error e ↦ error e
  | ok t ↦
      if is_active_state c.state
      then ok (
        true,
        record c { state = ending_state how; ended_at = some t; revision = c.revision + 1 },
      )
      else ok (false, c)
]
