-- ===== src/Phone/Tests.antt =====
-- The theorems on codes at concrete collections.
use alsm_web_be.Base.{
  ◌*◌, ℕ, ◌≤◌, Bool, ◌≡◌, ◌≢◌, refl, none, List, [], ◌∷◌, ◌+◌, String, true, str_eq, lookup, insert,
  inl, arith,
}
use alsm_web_be.Phone.Repository.{
  PhoneVerification, Codes, is_of, find_latest_active, remove_expired, consume_active, count_recent,
  create, revoke_all, increment_failed_attempts,
}
use alsm_web_be.Phone.Service.{
  RequestOtp, issue, request_otp, VerifyAnswer, verify_found, verify_otp, max_failed_attempts,
  max_requests_per_window, max_requests_per_day, rate_limit_window_ms, day_ms,
}
use alsm_web_be.Phone.Outcomes.{IsRefused}
use alsm_web_be.Phone.Tables.{total, is_distinct, has_id}
use alsm_web_be.Phone.Calls.{Event, after_all}
use alsm_web_be.Phone.Single.{verify_found-after_all}
use alsm_web_be.Phone.Guesses.{Call, guesses, issues, guesses-issues}
use alsm_web_be.Phone.Windows.{within}
use alsm_web_be.Phone.Limits.{after_calls, after_calls-limits}
use alsm_web_be.Phone.Removal.{own_expired, request_otp-remove_expired}
use alsm_web_be.Phone.Answers.{answer_for, verify_otp-answer_for}

-- A code is its own hash here.
abbrev same_text : String → String → Bool
same_text code hash = str_eq code hash

abbrev ask : ℕ → RequestOtp
ask id = record {
  user_id = 1;
  phone = "+84901234567";
  id = id;
  token_hash = "t";
  code_hash = "123456";
  is_delivered = true;
}

abbrev stored_at : ℕ → PhoneVerification
stored_at created = record {
  user_id = 1;
  phone = "+84901234567";
  token_hash = "t";
  code_hash = "123456";
  expires_at = created + 300000;
  consumed_at = none;
  created_at = created;
  failed_attempts = 1;
}

abbrev codes : Codes
codes = (7, stored_at 1000) ∷ []

abbrev right_code : VerifyAnswer × Codes
right_code = verify_found same_text 61000 61100 1 "123456" codes 7 (stored_at 1000)

right_code_runs : right_code.0 ≡ VerifyAnswer.verified
unfolding verify_found consume_active lookup
right_code_runs = refl

codes_distinct : is_distinct codes ≡ true
unfolding is_distinct has_id
codes_distinct = refl

abbrev calls : List Call
calls =
    Call.requests 1000 (ask 7)
    ∷ Call.verifies 2000 2001 2100 1 "+84901234567" "000000"
    ∷ Call.requests 3000 (ask 8)
    ∷ Call.requests 61000 (ask 9)
    ∷ Call.verifies 62000 62001 62100 1 "+84901234567" "123456"
    ∷ []

calls_run : (issues same_text calls [] ≡ 2) × (guesses same_text calls [] ≡ 1)
unfolding issues guesses request_otp count_recent find_latest_active verify_otp create insert
    revoke_all increment_failed_attempts lookup consume_active
calls_run = (refl, refl)

verify_found-after_all_example :
    (verify_found same_text 63000 63100 1 "123456"
      (after_all same_text (Event.requested 62000 (ask 8) ∷ Event.removed 62500 ∷ []) right_code.1)
      7
      (stored_at 1000)).0
    ≢ VerifyAnswer.verified
verify_found-after_all_example =
    verify_found-after_all same_text 7 61000 61100 1 "123456" (stored_at 1000) codes
      (Event.requested 62000 (ask 8) ∷ Event.removed 62500 ∷ []) 63000 63100 1 "123456"
      (stored_at 1000) codes_distinct right_code_runs refl

guesses-issues_example :
    guesses same_text calls [] ≤ max_failed_attempts * issues same_text calls []
guesses-issues_example = guesses-issues same_text calls

after_calls-limits_example :
    (total (within 1 "+84901234567" 1000 rate_limit_window_ms) (after_calls same_text calls [])
      ≤ max_requests_per_window)
    × (total (within 1 "+84901234567" 1000 day_ms) (after_calls same_text calls [])
        ≤ max_requests_per_day)
after_calls-limits_example = after_calls-limits same_text calls 1 "+84901234567" 1000 refl

abbrev three_codes : Codes
three_codes = (7, stored_at 1000) ∷ (8, stored_at 62000) ∷ (9, stored_at 123000) ∷ []

request_otp-remove_expired_example :
    IsRefused 430000 (ask 10) three_codes
    × (request_otp 430000 (ask 10) (remove_expired 430000 three_codes)
        ≡ issue 430000 (ask 10) (remove_expired 430000 three_codes))
unfolding own_expired is_of count_recent
request_otp-remove_expired_example =
    request_otp-remove_expired 430000 (ask 10) three_codes refl (inl (omega arith))

verify_otp-answer_for_example :
    (verify_otp same_text 300999 300999 301000 1 "+84901234567" "123456" codes).0
    ≡ answer_for same_text 300999 301000 "123456" (find_latest_active 300999 1 "+84901234567" codes)
verify_otp-answer_for_example =
    verify_otp-answer_for same_text 300999 300999 301000 1 "+84901234567" "123456" codes
      codes_distinct
