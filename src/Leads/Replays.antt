-- ===== src/Leads/Replays.antt =====
-- A phone call that is sent again.
use alsm_web_be.Base.{
  ℕ, true, ◌≡◌, refl, ◌∙◌, some, List, String, lookup, Bool-cases, inl, inr, ◌⊎◌, str_eq,
}
use alsm_web_be.Leads.Types.{Lead, Leads, Result, ok, raise, LeadError, PhoneCall}
use alsm_web_be.Leads.PhoneCalls.{
  CallResult, find_call, replay, NormalizedCall, LogPhoneCall, log_phone_call, normalize_call,
  is_request_id, new_call,
}
use alsm_web_be.Leads.Logging.{write_call_known}
use alsm_web_be.Leads.Calls.{Call, after_all, after_all-IsGrown, IsLogged, write_call-IsLogged}

Result-cases :
    (o : Result NormalizedCall)
    → ((n : NormalizedCall) × (o ≡ ok n)) ⊎ ((e : LeadError) × (o ≡ raise e))
Result-cases (ok n) = inl (n, refl)
Result-cases (raise e) = inr (e, refl)

module _ (fingerprint_of : ℕ → NormalizedCall → String) where
  -- What a success says of the input and of the leads after it.
  record IsAccepted (now call_id id user_id : ℕ) (i : LogPhoneCall) (email request_id : String)
      (leads : Leads) (r : CallResult) : Type 0 where
    normalized : NormalizedCall
    fits : is_request_id request_id ≡ true
    normal : normalize_call now i ≡ ok normalized
    logged :
        IsLogged id request_id
          (fingerprint_of user_id normalized)
          r.call
          (log_phone_call fingerprint_of now call_id
            (some id)
            i
            (some user_id)
            email
            (some request_id)
            leads).1

  log_phone_call-IsAccepted :
      (now call_id id user_id : ℕ) (i : LogPhoneCall) (email request_id : String) (leads : Leads)
      (r : CallResult)
      → (log_phone_call fingerprint_of now call_id
          (some id)
          i
          (some user_id)
          email
          (some request_id)
          leads).0
        ≡ ok r
      → IsAccepted now call_id id user_id i email request_id leads r
  unfolding log_phone_call new_call
  log_phone_call-IsAccepted now call_id id user_id i email request_id leads r e =
      elim (Bool-cases (is_request_id request_id)) [
        | inr bad ↦
            let no : raise LeadError.invalid_idempotency_key ≡ ok r =
              rw (bad, log_phone_call) at e in
            cc
        | inl fits ↦ elim (Result-cases (normalize_call now i)) [
          | inr (err, wrong) ↦
              let no : raise err ≡ ok r = rw (fits, wrong, log_phone_call) at e in cc
          | inl (n, normal) ↦
              let call : PhoneCall =
                new_call now call_id user_id email request_id (fingerprint_of user_id n) n in
              record {
                normalized = n;
                fits = fits;
                normal = normal;
                logged =
                    rw (fits, normal, log_phone_call)
                      (write_call-IsLogged id call leads r
                        (rw (fits, normal, log_phone_call) at e));
              }
        ]
      ]

  replay_runs :
      (fingerprint : String) (c : PhoneCall) (l : Lead) (leads : Leads)
      → str_eq c.request_fingerprint fingerprint ≡ true
      → replay fingerprint c l leads ≡ (ok (record { call = c; lead = l; replayed = true }), leads)
  replay_runs fingerprint c l leads same = rw same

  logged_again :
      (now call_id id user_id : ℕ) (i : LogPhoneCall) (email request_id : String) (leads : Leads)
      (n : NormalizedCall) (c : PhoneCall) (m : Lead)
      → is_request_id request_id ≡ true
      → normalize_call now i ≡ ok n
      → lookup id leads ≡ some m
      → find_call request_id m.phone_calls ≡ some c
      → str_eq c.request_fingerprint (fingerprint_of user_id n) ≡ true
      → log_phone_call fingerprint_of now call_id
          (some id)
          i
          (some user_id)
          email
          (some request_id)
          leads
        ≡ (ok (record { call = c; lead = m; replayed = true }), leads)
  unfolding log_phone_call new_call
  logged_again now call_id id user_id i email request_id leads n c m fits normal there known same =
      let call : PhoneCall =
        new_call now call_id user_id email request_id (fingerprint_of user_id n) n in
      rw (fits, normal, log_phone_call)
        (write_call_known id (fingerprint_of user_id n) call leads m c there known
          ∙ replay_runs (fingerprint_of user_id n) c m leads same)

  -- When a phone call was logged, the same input sent again with the same request id by the same
  -- user, after any other calls and at any time at which it is still valid input, is answered as
  -- replayed with the phone call that was logged first, and changes no lead.
  pub log_phone_call-log_phone_call :
      (now call_id id user_id : ℕ) (i : LogPhoneCall) (email request_id : String) (leads : Leads)
      (r : CallResult) (cs : List Call) (now' call_id' : ℕ)
      → (log_phone_call fingerprint_of now call_id
          (some id)
          i
          (some user_id)
          email
          (some request_id)
          leads).0
        ≡ ok r
      → normalize_call now' i ≡ normalize_call now i
      → (m : Lead) × (log_phone_call fingerprint_of now' call_id'
            (some id)
            i
            (some user_id)
            email
            (some request_id)
            (after_all fingerprint_of cs
              (log_phone_call fingerprint_of now call_id
                (some id)
                i
                (some user_id)
                email
                (some request_id)
                leads).1)
          ≡ (
            ok (record { call = r.call; lead = m; replayed = true }),
            after_all fingerprint_of cs
                (log_phone_call fingerprint_of now call_id
                  (some id)
                  i
                  (some user_id)
                  email
                  (some request_id)
                  leads).1,
          ))
  log_phone_call-log_phone_call now call_id id user_id i email request_id leads r cs now' call_id' e
        again =
      let a = log_phone_call-IsAccepted now call_id id user_id i email request_id leads r e in
      let g =
        after_all-IsGrown fingerprint_of cs id a.logged.lead
          (log_phone_call fingerprint_of now call_id (some id) i (some user_id) email
            (some request_id) leads).1
          a.logged.there in
      (
        g.lead,
        logged_again now' call_id' id user_id i email request_id _ a.normalized r.call g.lead a.fits
            (again ∙ a.normal) g.there (g.kept request_id r.call a.logged.known) a.logged.matching,
      )
