-- ===== src/Support/Tests.antt =====
-- The theorems on support contexts at a concrete one.
use alsm_web_be.Base.{
  ◌<◌, true, ◌≡◌, refl, some, List, [], ◌∷◌, units, is_hex_lower, is_run_of, matches, arith,
}
use alsm_web_be.Support.Context.{
  Context, ok, is_uuid, is_timely, is_identified, from_persistence, CreateContext, new_context,
  create, idle_expires_at, check_clock, is_active, captured_window, activity, Ending,
}
use alsm_web_be.Support.Lifetime.{
  Event, after, after_all, Follows, after_all-Follows, after_all-is_timely, create-lifetime,
  captured_window-bound,
}

abbrev request : CreateContext
request = record {
  id = "01234567-89ab-4def-8123-456789abcdef";
  actor_user_id = "0123456789abcdef01234567";
  original_session_id = "0123456789abcdef01234568";
  session_version = "1";
  authority_binding = "0123456789abcdef0123456789abcdef0123456789abcdef0123456789abcdef";
  organization_id = "0123456789abcdef01234569";
  now = 1000;
  authority_expires_at = 1000000;
}

abbrev context : Context
context = new_context request

-- A use, a use when the clock has gone back, and another use.
abbrev uses : List Event
uses = Event.used (some 5000) ∷ Event.used (some 4000) ∷ Event.used (some 600000) ∷ []

after_all-is_timely_example : is_timely (after_all uses context) ≡ true
unfolding is_timely new_context
after_all-is_timely_example = after_all-is_timely uses context (omega arith) refl

after_all-Follows_example :
    Follows context (after_all (Event.ended Ending.exit (some 700000) ∷ uses) context)
after_all-Follows_example = after_all-Follows (Event.ended Ending.exit (some 700000) ∷ uses) context

create-lifetime_example :
    (950000 < 1801000)
    × (950000 < 1000000)
    × ((after_all uses context).organization_id ≡ "0123456789abcdef01234569")
unfolding create from_persistence is_identified is_uuid matches is_hex_lower is_run_of units
    is_timely is_active check_clock idle_expires_at after_all after activity new_context
create-lifetime_example = create-lifetime request context uses 950000 refl refl

captured_window-bound_example :
    (800000 < 901000)
    × (800000 < 1000000)
    × (is_active (some 800000) (after_all uses context) ≡ ok true)
unfolding captured_window is_active check_clock idle_expires_at after_all after activity new_context
captured_window-bound_example = captured_window-bound context uses 800000 refl
