-- ===== src/Support/Lifetime.antt =====
-- How long a support context gives access, whatever happens to it.
use alsm_web_be.Base.{
  ℕ, ◌+◌, ◌≤◌, ◌<◌, Bool, true, false, ◌≡◌, ap, ◌∙◌, Option, none, some, List, [], ◌∷◌, min, length,
  arith,
}
use alsm_web_be.Support.Context.{
  idle_timeout_ms, is_active_state, Context, Result, ok, error, is_timely, is_identified,
  from_persistence, CreateContext, new_context, create, idle_expires_at, check_clock, is_active,
  captured_window, activity, Ending, end_context,
}

-- What may happen to a context that was created.
pub data Event : Type 0 where
  used : Option ℕ → Event
  ended : Ending → Option ℕ → Event

abbrev kept : Context → Result Context → Context
kept c (ok d) = d
kept c (error _) = c

abbrev kept_second : Context → Result (Bool × Context) → Context
kept_second c (ok (_, d)) = d
kept_second c (error _) = c

-- A call that fails leaves the context as it is.
unfoldable pub after : Event → Context → Context
after (used now) c = kept c (activity now c)
after (ended how now) c = kept_second c (end_context how now c)

unfoldable pub after_all : List Event → Context → Context
after_all [] c = c
after_all (e ∷ es) c = after_all es (after e c)

from_persistence-ok :
    (c d : Context)
    → from_persistence c ≡ ok d
    → (d ≡ c) × (is_identified c ≡ true) × (is_timely c ≡ true)
unfolding from_persistence
from_persistence-ok c d e = ground arith

after-is_timely :
    (e : Event) (c : Context)
    → c.revision < 9007199254740991
    → is_timely c ≡ true
    → is_timely (after e c) ≡ true
unfolding after activity end_context is_active check_clock is_timely idle_expires_at
after-is_timely (used none) c room h = ground arith
after-is_timely (used (some t)) c room h = ground arith
after-is_timely (ended how none) c room h = ground arith
after-is_timely (ended Ending.exit (some t)) c room h = ground arith
after-is_timely (ended Ending.expire (some t)) c room h = ground arith
after-is_timely (ended Ending.revoke (some t)) c room h = ground arith

revision_grows : (e : Event) (c : Context) → (after e c).revision ≤ c.revision + 1
unfolding after activity end_context is_active check_clock idle_expires_at
revision_grows (used none) c = ground arith
revision_grows (used (some t)) c = ground arith
revision_grows (ended how none) c = ground arith
revision_grows (ended how (some t)) c = ground arith

-- Every use and every end of a valid context leave a context whose times and revision pass the
-- checks of `fromPersistence`, as long as the revision can be counted.
pub after_all-is_timely :
    (es : List Event) (c : Context)
    → c.revision + length es ≤ 9007199254740991
    → is_timely c ≡ true
    → is_timely (after_all es c) ≡ true
unfolding after_all
after_all-is_timely [] c room h = h
after_all-is_timely (e ∷ es) c room h =
    after_all-is_timely es (after e c) (omega (arith, room, revision_grows e c))
      (after-is_timely e c (omega (arith, room)) h)

-- What a context keeps, and the ways in which it can move on.
pub record Follows (c d : Context) : Type 0 where
  pub organization : d.organization_id ≡ c.organization_id
  pub actor : d.actor_user_id ≡ c.actor_user_id
  pub session : d.original_session_id ≡ c.original_session_id
  pub created : d.created_at ≡ c.created_at
  pub expires : d.expires_at ≡ c.expires_at
  pub activity : c.last_activity_at ≤ d.last_activity_at
  pub state : is_active_state c.state ≡ false → d.state ≡ c.state
  pub end : is_active_state c.state ≡ false → d.ended_at ≡ c.ended_at

after-Follows : (e : Event) (c : Context) → Follows c (after e c)
unfolding after activity end_context is_active check_clock idle_expires_at
after-Follows (used none) c = ground arith
after-Follows (used (some t)) c = ground arith
after-Follows (ended how none) c = ground arith
after-Follows (ended how (some t)) c = ground arith

Follows-trans : (c d e : Context) → Follows c d → Follows d e → Follows c e
Follows-trans c d e p q = record {
  organization = q.organization ∙ p.organization;
  actor = q.actor ∙ p.actor;
  session = q.session ∙ p.session;
  created = q.created ∙ p.created;
  expires = q.expires ∙ p.expires;
  activity = omega (arith, p.activity, q.activity);
  state = λ over. q.state (rw (p.state over) over) ∙ p.state over;
  end = λ over. q.end (rw (p.state over) over) ∙ p.end over;
}

-- Whatever happens to a context, it stays with its actor, session and organization, it does not
-- expire later, and once it has ended it keeps the way and the time of its end.
pub after_all-Follows : (es : List Event) (c : Context) → Follows c (after_all es c)
unfolding after_all
after_all-Follows [] c = ground arith
after_all-Follows (e ∷ es) c =
    Follows-trans c (after e c) (after_all es (after e c)) (after-Follows e c)
      (after_all-Follows es (after e c))

is_active-before :
    (now : ℕ) (c : Context)
    → is_active (some now) c ≡ ok true
    → (now < c.expires_at)
      × (now < c.last_activity_at + idle_timeout_ms)
      × (is_active_state c.state ≡ true)
unfolding is_active check_clock idle_expires_at
is_active-before now c h = ground arith

-- Whatever happens to a new context, it gives access less than 30 minutes from its creation, only
-- before the authority expires, and to the organization it was created for.
pub create-lifetime :
    (i : CreateContext) (c : Context) (es : List Event) (now : ℕ)
    → create i ≡ ok c
    → is_active (some now) (after_all es c) ≡ ok true
    → (now < i.now + 1800000)
      × (now < i.authority_expires_at)
      × ((after_all es c).organization_id ≡ i.organization_id)
unfolding create new_context
create-lifetime i c es now made live =
    let (same, _, _) = from_persistence-ok (new_context i) c made in
    let follows = after_all-Follows es c in
    let (before, _, _) = is_active-before now (after_all es c) live in
    let bound : (after_all es c).expires_at ≡ min (i.now + 1800000) i.authority_expires_at =
      follows.expires ∙ ap (λ x. x.expires_at) same in
    (
      omega (arith, before, bound),
      omega (arith, before, bound),
      follows.organization ∙ ap (λ x. x.organization_id) same,
    )

-- The window that was captured ends 15 minutes after the last committed activity, whatever
-- activity was recorded since; and it is closed where the context itself is not active any more.
pub captured_window-bound :
    (c : Context) (es : List Event) (now : ℕ)
    → captured_window c (some now) (after_all es c) ≡ ok true
    → (now < c.last_activity_at + 900000)
      × (now < c.expires_at)
      × (is_active (some now) (after_all es c) ≡ ok true)
unfolding captured_window
captured_window-bound c es now h =
    let own : is_active (some now) c ≡ ok true = ground arith in
    let (before, idle, _) = is_active-before now c own in (idle, before, ground arith)
