-- ===== src/Leads/Logging.antt =====
-- What the phone call service does to the stored leads.
use alsm_web_be.Base.{
  ℕ, false, not, ◌&&◌, ◌≡◌, Option, none, some, String, lookup, insert, found_one, arith,
  Bool-cases, Option-cases, inl, inr,
}
use alsm_web_be.Leads.Types.{same_status, PhoneCall, Lead, Leads, Result, ok, raise, LeadError}
use alsm_web_be.Leads.Repository.{has_request, with_call, add_phone_call_once}
use alsm_web_be.Leads.PhoneCalls.{
  find_call, status_after_call, replay, write_call, NormalizedCall, LogPhoneCall, log_normalized,
  log_phone_call, normalize_call, is_request_id, new_call,
}
use alsm_web_be.Leads.Steps.{
  IsStep-with_call, same_status_self, find_call-none, IsForward, IsForward-self, IsForward-insert,
}

pub replay_leads :
    (f : String) (c : PhoneCall) (l : Lead) (leads : Leads) → (replay f c l leads).1 ≡ leads
replay_leads f c l leads = ground arith

-- In one snapshot a call that is not there yet is written.
add_phone_call_once-fresh :
    (id : ℕ) (call : PhoneCall) (l : Lead) (leads : Leads)
    → lookup id leads ≡ some l
    → find_call call.request_id l.phone_calls ≡ none
    → add_phone_call_once id call l.status (status_after_call l.status) leads ≡ (
      some (with_call call (status_after_call l.status) l),
      insert id (with_call call (status_after_call l.status) l) leads,
    )
unfolding add_phone_call_once
add_phone_call_once-fresh id call l leads there fresh = rw (
  found_one leads id
      (λ m. same_status m.status l.status && not (has_request call.request_id m.phone_calls)) l
      there (rw (same_status_self l.status, find_call-none call.request_id l.phone_calls fresh)),
  add_phone_call_once,
)

pub write_call_known :
    (id : ℕ) (fingerprint : String) (call : PhoneCall) (leads : Leads) (l : Lead) (c : PhoneCall)
    → lookup id leads ≡ some l
    → find_call call.request_id l.phone_calls ≡ some c
    → write_call id call.request_id fingerprint call leads ≡ replay fingerprint c l leads
unfolding write_call
write_call_known id fingerprint call leads l c there known = rw (there, known, write_call)

pub write_call_fresh :
    (id : ℕ) (fingerprint : String) (call : PhoneCall) (leads : Leads) (l : Lead)
    → lookup id leads ≡ some l
    → find_call call.request_id l.phone_calls ≡ none
    → write_call id call.request_id fingerprint call leads ≡ (
      ok (record {
        call = call;
        lead = with_call call (status_after_call l.status) l;
        replayed = false;
      }),
      insert id (with_call call (status_after_call l.status) l) leads,
    )
unfolding write_call
write_call_fresh id fingerprint call leads l there fresh =
    rw (there, fresh, write_call, add_phone_call_once-fresh id call l leads there fresh)

pub write_call_missing :
    (id : ℕ) (fingerprint : String) (call : PhoneCall) (leads : Leads)
    → lookup id leads ≡ none
    → write_call id call.request_id fingerprint call leads ≡ (raise LeadError.lead_not_found, leads)
unfolding write_call
write_call_missing id fingerprint call leads missing = rw (missing, write_call)

write_call-IsForward :
    (id : ℕ) (fingerprint : String) (call : PhoneCall) (leads : Leads)
    → IsForward leads (write_call id call.request_id fingerprint call leads).1
write_call-IsForward id fingerprint call leads = elim (Option-cases (lookup id leads)) [
  | inl missing ↦ rw (write_call_missing id fingerprint call leads missing) (IsForward-self leads)
  | inr (l, there) ↦ elim (Option-cases (find_call call.request_id l.phone_calls)) [
    | inr (c, known) ↦
        rw
          (
            write_call_known id fingerprint call leads l c there known,
            replay_leads fingerprint c l leads,
          )
          (IsForward-self leads)
    | inl fresh ↦ rw (write_call_fresh id fingerprint call leads l there fresh) (
        IsForward-insert id l (with_call call (status_after_call l.status) l) leads there
          (IsStep-with_call call l fresh))
  ]
]

module _ (fingerprint_of : ℕ → NormalizedCall → String) where
  log_normalized-IsForward :
      (now call_id id user_id : ℕ) (email request_id : String) (r : Result NormalizedCall)
      (leads : Leads)
      → IsForward leads
          (log_normalized fingerprint_of now call_id id user_id email request_id r leads).1
  unfolding new_call
  log_normalized-IsForward now call_id id user_id email request_id (raise e) leads =
      IsForward-self leads
  log_normalized-IsForward now call_id id user_id email request_id (ok n) leads =
      write_call-IsForward id (fingerprint_of user_id n)
        (new_call now call_id user_id email request_id (fingerprint_of user_id n) n) leads

  pub log_phone_call-IsForward :
      (now call_id : ℕ) (id : Option ℕ) (i : LogPhoneCall) (actor : Option ℕ) (email : String)
      (request_id : Option String) (leads : Leads)
      → IsForward leads
          (log_phone_call fingerprint_of now call_id id i actor email request_id leads).1
  unfolding log_phone_call
  log_phone_call-IsForward now call_id none i actor email request_id leads = IsForward-self leads
  log_phone_call-IsForward now call_id (some id) i none email request_id leads =
      IsForward-self leads
  log_phone_call-IsForward now call_id (some id) i (some user_id) email none leads =
      IsForward-self leads
  log_phone_call-IsForward now call_id (some id) i (some user_id) email (some request_id) leads =
      elim (Bool-cases (is_request_id request_id)) [
        | inl fits ↦
            rw (fits, log_phone_call)
              (log_normalized-IsForward now call_id id user_id email request_id
                (normalize_call now i) leads)
        | inr bad ↦ rw (bad, log_phone_call) (IsForward-self leads)
      ]
