-- ===== src/Leads/PhoneCalls.antt =====
-- application/log-phone-call.service.ts. The transaction reads one snapshot. The lead's and the
-- actor's ids that are not 24 hexadecimal digits are `none`, as are an outcome that is none of the
-- list and a date that cannot be read. The audit entry and the messages are left out.
use alsm_web_be.Base.{
  ℕ, Bool, true, false, ◌&&◌, ◌||◌, Option, none, some, List, [], ◌∷◌, String, ltb, leb, ◌==◌,
  str_eq, is_empty, lookup, trim, units, is_hex, matches, times, is_char, if◌then◌else◌,
}
use alsm_web_be.Leads.Types.{
  LeadStatus, same_status, CallOutcome, PhoneCall, Lead, Leads, LeadError, Result, ok, raise,
}
use alsm_web_be.Leads.Repository.{add_phone_call_once}

-- `[1-8]`, and `[89ab]` in either case.
abbrev is_uuid_version : ℕ → Bool
is_uuid_version c = leb b'1' c && leb c b'8'

abbrev is_uuid_variant : ℕ → Bool
is_uuid_variant c = c == b'8' || c == b'9' || c == b'a' || c == b'b' || c == b'A' || c == b'B'

-- REQUEST_ID_PATTERN
unfoldable pub is_request_id : String → Bool
unfolding matches is_hex
is_request_id s =
    matches
      (times 8 is_hex (
        is_char b'-'
        ∷ times 4 is_hex (
            is_char b'-'
            ∷ is_uuid_version
            ∷ times 3 is_hex (
                is_char b'-'
                ∷ is_uuid_variant
                ∷ times 3 is_hex (is_char b'-' ∷ times 12 is_hex [])))))
      s

pub record LogPhoneCall : Type 0 where
  pub outcome : Option CallOutcome
  pub duration_minutes : ℕ
  pub summary : String
  pub notes : Option String
  pub follow_up_at : Option (Option ℕ)

-- What the fingerprint is taken of, beside the actor.
pub record NormalizedCall : Type 0 where
  pub outcome : CallOutcome
  pub duration_minutes : ℕ
  pub summary : String
  pub notes : Option String
  pub follow_up_at : Option ℕ

pub record CallResult : Type 0 where
  pub call : PhoneCall
  pub lead : Lead
  pub replayed : Bool

-- `notes?.trim() || undefined`
abbrev text_or_none : Option String → Option String
text_or_none none = none
text_or_none (some s) = if is_empty (trim s) then none else some (trim s)

-- The follow-up time: absent, or in the future.
abbrev follow_up : ℕ → Option (Option ℕ) → Result (Option ℕ)
follow_up now none = ok none
follow_up now (some none) = raise LeadError.invalid_follow_up_date
follow_up now (some (some t)) =
    if leb t now then raise LeadError.invalid_follow_up_date else ok (some t)

abbrev is_too_long : Option String → Bool
is_too_long none = false
is_too_long (some s) = ltb 2000 (units s)

abbrev with_follow_up : CallOutcome → LogPhoneCall → Result (Option ℕ) → Result NormalizedCall
with_follow_up outcome i (raise e) = raise e
with_follow_up outcome i (ok at_time) =
    if is_too_long (text_or_none i.notes)
    then raise LeadError.invalid_call_notes
    else ok (record {
      outcome = outcome;
      duration_minutes = i.duration_minutes;
      summary = trim i.summary;
      notes = text_or_none i.notes;
      follow_up_at = at_time;
    })

abbrev with_outcome : ℕ → LogPhoneCall → Option CallOutcome → Result NormalizedCall
with_outcome now i none = raise LeadError.invalid_call_outcome
with_outcome now i (some outcome) = with_follow_up outcome i (follow_up now i.follow_up_at)

unfoldable pub normalize_call : ℕ → LogPhoneCall → Result NormalizedCall
unfolding units
normalize_call now i =
    if is_empty (trim i.summary) || ltb 500 (units (trim i.summary))
    then raise LeadError.invalid_call_summary
    else if ltb i.duration_minutes 1 || ltb 480 i.duration_minutes
    then raise LeadError.invalid_call_duration
    else with_outcome now i i.outcome

unfoldable pub find_call : String → List PhoneCall → Option PhoneCall
find_call request_id [] = none
find_call request_id (c ∷ cs) =
    if str_eq c.request_id request_id then some c else find_call request_id cs

unfoldable pub new_call : ℕ → ℕ → ℕ → String → String → String → NormalizedCall → PhoneCall
new_call now call_id user_id email request_id fingerprint n = record {
  id = call_id;
  request_id = request_id;
  request_fingerprint = fingerprint;
  duration_minutes = n.duration_minutes;
  outcome = n.outcome;
  summary = n.summary;
  notes = n.notes;
  follow_up_at = n.follow_up_at;
  performed_by_user_id = user_id;
  performed_by_email = email;
  created_at = now;
}

abbrev pub is_new : LeadStatus → Bool
is_new s = same_status s LeadStatus.new

abbrev pub status_after_call : LeadStatus → LeadStatus
status_after_call s = if is_new s then LeadStatus.contacted else s

-- A call that was logged under the request id.
abbrev pub replay : String → PhoneCall → Lead → Leads → Result CallResult × Leads
replay fingerprint c l leads =
    if str_eq c.request_fingerprint fingerprint
    then (ok (record { call = c; lead = l; replayed = true }), leads)
    else (raise LeadError.idempotency_key_reused, leads)

-- After a write that found nothing to write.
abbrev not_written : ℕ → String → String → Leads → Result CallResult × Leads
not_written id request_id fingerprint leads = elim (lookup id leads) [
  | none ↦ (raise LeadError.lead_not_found, leads)
  | some l ↦ elim (find_call request_id l.phone_calls) [
    | none ↦ (raise LeadError.lead_state_changed, leads)
    | some c ↦ replay fingerprint c l leads
  ]
]

abbrev pub written :
    ℕ → String → String → PhoneCall → Option Lead × Leads → Result CallResult × Leads
written id request_id fingerprint call (some l, leads) =
    (ok (record { call = call; lead = l; replayed = false }), leads)
written id request_id fingerprint call (none, leads) = not_written id request_id fingerprint leads

-- The transaction, for a call that is made.
unfoldable pub write_call : ℕ → String → String → PhoneCall → Leads → Result CallResult × Leads
unfolding find_call add_phone_call_once
write_call id request_id fingerprint call leads = elim (lookup id leads) [
  | none ↦ (raise LeadError.lead_not_found, leads)
  | some l ↦ elim (find_call request_id l.phone_calls) [
    | some c ↦ replay fingerprint c l leads
    | none ↦
        written id request_id fingerprint call
          (add_phone_call_once id call l.status (status_after_call l.status) leads)
  ]
]

-- `fingerprint_of` is the SHA-256 of the JSON text of the actor and the normalized call.
module _ (fingerprint_of : ℕ → NormalizedCall → String) where
  abbrev pub log_normalized :
      ℕ → ℕ → ℕ → ℕ → String → String → Result NormalizedCall → Leads → Result CallResult × Leads
  log_normalized now call_id id user_id email request_id (raise e) leads = (raise e, leads)
  log_normalized now call_id id user_id email request_id (ok n) leads =
      write_call id request_id (fingerprint_of user_id n)
        (new_call now call_id user_id email request_id (fingerprint_of user_id n) n) leads

  unfoldable pub log_phone_call :
      ℕ
      → ℕ
      → Option ℕ
      → LogPhoneCall
      → Option ℕ
      → String
      → Option String
      → Leads
      → Result CallResult × Leads
  unfolding write_call new_call normalize_call is_request_id
  log_phone_call now call_id none i actor email request_id leads =
      (raise LeadError.invalid_lead_id, leads)
  log_phone_call now call_id (some id) i none email request_id leads =
      (raise LeadError.unauthorized, leads)
  log_phone_call now call_id (some id) i (some user_id) email none leads =
      (raise LeadError.invalid_idempotency_key, leads)
  log_phone_call now call_id (some id) i (some user_id) email (some request_id) leads =
      if is_request_id request_id
      then log_normalized now call_id id user_id email request_id (normalize_call now i) leads
      else (raise LeadError.invalid_idempotency_key, leads)
