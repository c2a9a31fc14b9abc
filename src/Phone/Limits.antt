-- ===== src/Phone/Limits.antt =====
-- How many codes are sent in a stretch of time, over sequences of whole calls.
use alsm_web_be.Base.{
  ℕ, ◌≤◌, Bool, true, false, ◌≡◌, List, [], ◌∷◌, String, arith, Option-cases, inl, inr,
}
use alsm_web_be.Phone.Repository.{PhoneVerification, Codes, find_latest_active, consumed}
use alsm_web_be.Phone.Service.{
  RequestOtp, request_otp, verify_found, verify_otp, max_requests_per_window, max_requests_per_day,
  rate_limit_window_ms, day_ms,
}
use alsm_web_be.Phone.Tables.{total}
use alsm_web_be.Phone.Outcomes.{
  request_otp-cases, consume_active-cases, IsConcluded, verify_found-cases,
}
use alsm_web_be.Phone.Guesses.{Call, after_call}
use alsm_web_be.Phone.Windows.{
  within, within-consumed, within-issue, replace_same, increment-within,
}

module _ (matches : String → String → Bool) where
  found-within :
      (user_id : ℕ) (phone : String) (start span : ℕ) (now finish user : ℕ) (code : String)
      (codes : Codes) (id : ℕ) (c : PhoneVerification)
      → total
          (within user_id phone start span)
          (verify_found matches now finish user code codes id c).1
        ≡ total (within user_id phone start span) codes
  found-within user_id phone start span now finish user code codes id c =
      elim (verify_found-cases matches now finish user code codes id c) [
        | IsConcluded.is_locked e _ ↦ rw e
        | IsConcluded.is_expired e _ ↦ rw e
        | IsConcluded.is_wrong e _ _ ↦ rw e (increment-within user_id phone start span id codes)
        | IsConcluded.is_right e _ _ ↦ elim (consume_active-cases finish id user codes) [
          | inl lost ↦ rw (e, lost)
          | inr (d, here, fits, won) ↦
              rw (e, won)
                (replace_same (within user_id phone start span) id (consumed finish d) d codes here
                  (within-consumed user_id phone start span finish d))
        ]
      ]

  verify-within :
      (user_id : ℕ) (phone : String) (begin span : ℕ) (start now finish user : ℕ) (to code : String)
      (codes : Codes)
      → total
          (within user_id phone begin span)
          (verify_otp matches start now finish user to code codes).1
        ≡ total (within user_id phone begin span) codes
  unfolding verify_otp
  verify-within user_id phone begin span start now finish user to code codes =
      elim (Option-cases (find_latest_active start user to codes)) [
        | inl nothing ↦ rw (nothing, verify_otp)
        | inr ((id, c), latest) ↦
            rw (latest, verify_otp)
              (found-within user_id phone begin span now finish user code codes id c)
      ]

  abbrev pub after_calls : List Call → Codes → Codes
  after_calls [] codes = codes
  after_calls (c ∷ cs) codes = after_calls cs (after_call matches c codes)

  -- At most three codes in ten minutes and ten in a day.
  record IsLimited (codes : Codes) : Type 0 where
    in_window :
        (user_id : ℕ) (phone : String) (start : ℕ)
        → total (within user_id phone start rate_limit_window_ms) codes ≤ max_requests_per_window
    in_day :
        (user_id : ℕ) (phone : String) (start : ℕ)
        → total (within user_id phone start day_ms) codes ≤ max_requests_per_day

  request-IsLimited :
      (now : ℕ) (r : RequestOtp) (codes : Codes)
      → IsLimited codes
      → IsLimited (request_otp now r codes).1
  request-IsLimited now r codes h = elim (request_otp-cases now r codes) [
    | inl refused ↦ rw refused.0 h
    | inr issued ↦ rw issued.answer (record {
      in_window = λ user_id phone start.
          within-issue user_id phone start rate_limit_window_ms max_requests_per_window now r codes
            issued.in_window (h.in_window user_id phone start);
      in_day = λ user_id phone start.
          within-issue user_id phone start day_ms max_requests_per_day now r codes issued.in_day
            (h.in_day user_id phone start);
    })
  ]

  verify-IsLimited :
      (start now finish user : ℕ) (to code : String) (codes : Codes)
      → IsLimited codes
      → IsLimited (verify_otp matches start now finish user to code codes).1
  verify-IsLimited start now finish user to code codes h = record {
    in_window = λ user_id phone begin.
        rw
          (verify-within user_id phone begin rate_limit_window_ms start now finish user to code
            codes)
          (h.in_window user_id phone begin);
    in_day = λ user_id phone begin.
        rw (verify-within user_id phone begin day_ms start now finish user to code codes)
          (h.in_day user_id phone begin);
  }

  -- Sequences in which the database does not remove codes.
  abbrev pub keeps : List Call → Bool
  keeps [] = true
  keeps (Call.requests now r ∷ cs) = keeps cs
  keeps (Call.verifies start now finish user_id phone code ∷ cs) = keeps cs
  keeps (Call.removes now ∷ cs) = false

  calls-IsLimited :
      (cs : List Call) (codes : Codes)
      → keeps cs ≡ true
      → IsLimited codes
      → IsLimited (after_calls cs codes)
  unfolding after_call
  calls-IsLimited [] codes kept h = h
  calls-IsLimited (Call.requests now r ∷ cs) codes kept h =
      calls-IsLimited cs (request_otp now r codes).1 kept (request-IsLimited now r codes h)
  calls-IsLimited (Call.verifies start now finish user_id phone code ∷ cs) codes kept h =
      calls-IsLimited cs (verify_otp matches start now finish user_id phone code codes).1 kept
        (verify-IsLimited start now finish user_id phone code codes h)
  calls-IsLimited (Call.removes now ∷ cs) codes kept h = cc

  empty-IsLimited : IsLimited []
  unfolding total
  empty-IsLimited = record {
    in_window = λ user_id phone start. omega arith;
    in_day = λ user_id phone start. omega arith;
  }

  -- After any sequence of whole calls from an empty collection of which nothing was removed, at
  -- most three of the codes of a user and phone were created within any ten minutes, ends
  -- included, and at most ten within any 24 hours.
  pub after_calls-limits :
      (cs : List Call) (user_id : ℕ) (phone : String) (start : ℕ)
      → keeps cs ≡ true
      → (total (within user_id phone start rate_limit_window_ms) (after_calls cs [])
          ≤ max_requests_per_window)
        × (total (within user_id phone start day_ms) (after_calls cs []) ≤ max_requests_per_day)
  after_calls-limits cs user_id phone start kept =
      let h = calls-IsLimited cs [] kept empty-IsLimited in
      (h.in_window user_id phone start, h.in_day user_id phone start)
