-- ===== src/Phone/Service.antt =====
-- application/phone-verification.service.ts. A request runs at the time `now`; verifyOtp reads
-- the clock three times. `matches code hash` is bcrypt.compare. What is drawn at random, hashed, and told by the SMS gateway is an argument.
use alsm_web_be.Base.{
  ℕ, ◌+◌, ◌-◌, ◌*◌, ◌/◌, Bool, true, false, Option, none, some, String, ltb, leb, if◌then◌else◌,
}
use alsm_web_be.Phone.Repository.{
  PhoneVerification, CreateVerification, Codes, create, find_latest_active, consume_active,
  increment_failed_attempts, revoke_all, count_recent,
}

abbrev pub otp_ttl_ms : ℕ
otp_ttl_ms = 5 * 60 * 1000

abbrev pub otp_cooldown_ms : ℕ
otp_cooldown_ms = 60 * 1000

abbrev pub max_requests_per_window : ℕ
max_requests_per_window = 3

abbrev pub rate_limit_window_ms : ℕ
rate_limit_window_ms = 10 * 60 * 1000

abbrev pub max_requests_per_day : ℕ
max_requests_per_day = 10

abbrev pub day_ms : ℕ
day_ms = 24 * 60 * 60 * 1000

abbrev pub max_failed_attempts : ℕ
max_failed_attempts = 5

-- `Math.ceil(ms / 1000)`
abbrev pub seconds : ℕ → ℕ
seconds ms = (ms + 999) / 1000

pub data RequestAnswer : Type 0 where
  sent : ℕ → RequestAnswer
  not_sent : ℕ → RequestAnswer
  rate_limited daily_limit sms_failed : RequestAnswer

-- A request: the id that the database will assign, what is stored of the token and the code, and
-- whether the gateway takes the message.
pub record RequestOtp : Type 0 where
  pub user_id : ℕ
  pub phone : String
  pub id : ℕ
  pub token_hash : String
  pub code_hash : String
  pub is_delivered : Bool

abbrev pub delivery : Bool → RequestAnswer
delivery true = RequestAnswer.sent (seconds otp_cooldown_ms)
delivery false = RequestAnswer.sms_failed

unfoldable pub code_input : ℕ → RequestOtp → CreateVerification
code_input now r = record {
  user_id = r.user_id;
  phone = r.phone;
  token_hash = r.token_hash;
  code_hash = r.code_hash;
  expires_at = now + otp_ttl_ms;
}

unfoldable pub issue : ℕ → RequestOtp → Codes → RequestAnswer × Codes
unfolding code_input
issue now r codes = (
  delivery r.is_delivered,
  create now r.id (code_input now r) (revoke_all now r.user_id r.phone codes),
)

-- The cooldown, after the limits.
unfoldable pub request_after :
    ℕ → RequestOtp → Codes → Option (ℕ × PhoneVerification) → RequestAnswer × Codes
unfolding issue
request_after now r codes none = issue now r codes
request_after now r codes (some (id, existing)) =
    if ltb now (existing.created_at + otp_cooldown_ms)
    then (RequestAnswer.not_sent (seconds (existing.created_at + otp_cooldown_ms - now)), codes)
    else issue now r codes

unfoldable pub request_otp : ℕ → RequestOtp → Codes → RequestAnswer × Codes
unfolding request_after
request_otp now r codes =
    if leb max_requests_per_window
      (count_recent r.user_id r.phone (now - rate_limit_window_ms) codes)
    then (RequestAnswer.rate_limited, codes)
    else if leb max_requests_per_day (count_recent r.user_id r.phone (now - day_ms) codes)
    then (RequestAnswer.daily_limit, codes)
    else request_after now r codes (find_latest_active now r.user_id r.phone codes)

pub data VerifyAnswer : Type 0 where
  verified not_found locked expired invalid already_used : VerifyAnswer

abbrev pub verdict : Bool × Codes → VerifyAnswer × Codes
verdict (true, codes) = (VerifyAnswer.verified, codes)
verdict (false, codes) = (VerifyAnswer.already_used, codes)

module _ (matches : String → String → Bool) where
  -- The checks on the code that was found, with the expiry checked at `now`, and its use at `finish`,
  -- after the comparison.
  unfoldable pub verify_found :
      ℕ → ℕ → ℕ → String → Codes → ℕ → PhoneVerification → VerifyAnswer × Codes
  verify_found now finish user_id code codes id c =
      if leb max_failed_attempts c.failed_attempts
      then (VerifyAnswer.locked, codes)
      else if leb c.expires_at now
      then (VerifyAnswer.expired, codes)
      else if matches code c.code_hash
      then verdict (consume_active finish id user_id codes)
      else (VerifyAnswer.invalid, (increment_failed_attempts id codes).1)

  -- The code is searched at `start`.
  unfoldable pub verify_otp : ℕ → ℕ → ℕ → ℕ → String → String → Codes → VerifyAnswer × Codes
  unfolding verify_found
  verify_otp start now finish user_id phone code codes =
      elim (find_latest_active start user_id phone codes) [
        | none ↦ (VerifyAnswer.not_found, codes)
        | some (id, c) ↦ verify_found now finish user_id code codes id c
      ]

unfoldable pub has_active_otp : ℕ → ℕ → String → Codes → Bool
has_active_otp now user_id phone codes = elim (find_latest_active now user_id phone codes) [
  | none ↦ false
  | some _ ↦ true
]
