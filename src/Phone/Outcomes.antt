-- ===== src/Phone/Outcomes.antt =====
-- The ways in which the calls end.
use alsm_web_be.Base.{
  ℕ, ◌+◌, ◌-◌, ◌≤◌, ◌<◌, Bool, true, false, ◌&&◌, ◌≡◌, some, String, ltb, leb, ◌==◌, lookup, insert,
  find_one-cases, arith, Bool-cases, Option-cases, inl, inr, ◌⊎◌, sym, ◌∙◌, ap,
}
use alsm_web_be.Phone.Repository.{
  PhoneVerification, Codes, is_valid, find_latest_active, consumed, consume_active,
  increment_failed_attempts, count_recent,
}
use alsm_web_be.Phone.Service.{
  RequestOtp, RequestAnswer, issue, request_after, request_otp, VerifyAnswer, verify_found, verdict,
  max_requests_per_window, max_requests_per_day, rate_limit_window_ms, day_ms, max_failed_attempts,
  otp_cooldown_ms,
}

-- Either nothing is written and no code sent, or the limits leave room and a code is issued.
pub record IsIssued (now : ℕ) (r : RequestOtp) (codes : Codes) : Type 0 where
  pub answer : request_otp now r codes ≡ issue now r codes
  pub in_window :
      count_recent r.user_id r.phone (now - rate_limit_window_ms) codes < max_requests_per_window
  pub in_day : count_recent r.user_id r.phone (now - day_ms) codes < max_requests_per_day
  pub cooled :
      (id : ℕ) (c : PhoneVerification)
      → find_latest_active now r.user_id r.phone codes ≡ some (id, c)
      → c.created_at + otp_cooldown_ms ≤ now

-- An answer without a code.
abbrev pub is_refusal : RequestAnswer → Bool
is_refusal (RequestAnswer.sent _) = false
is_refusal (RequestAnswer.not_sent _) = true
is_refusal RequestAnswer.rate_limited = true
is_refusal RequestAnswer.daily_limit = true
is_refusal RequestAnswer.sms_failed = false

abbrev pub IsRefused : ℕ → RequestOtp → Codes → Type 0
IsRefused now r codes =
    ((request_otp now r codes).1 ≡ codes) × (is_refusal (request_otp now r codes).0 ≡ true)

pub request_otp-cases :
    (now : ℕ) (r : RequestOtp) (codes : Codes) → IsRefused now r codes ⊎ IsIssued now r codes
unfolding request_otp request_after
request_otp-cases now r codes =
    elim (Bool-cases (
      leb max_requests_per_window
        (count_recent r.user_id r.phone (now - rate_limit_window_ms) codes))) [
          | inl full ↦ inl (rw (full, request_otp), rw (full, request_otp))
          | inr window ↦
              elim (Bool-cases
                (leb max_requests_per_day (count_recent r.user_id r.phone (now - day_ms) codes))) [
                  | inl full ↦ inl (rw (window, full, request_otp), rw (window, full, request_otp))
                  | inr day ↦ elim (Option-cases (find_latest_active now r.user_id r.phone codes)) [
                    | inl fresh ↦ inr (record {
                      answer = rw (window, day, fresh, request_otp);
                      in_window = ground (arith, window);
                      in_day = ground (arith, day);
                      cooled = λ id c e. cc;
                    })
                    | inr ((id, c), latest) ↦
                        elim (Bool-cases (ltb now (c.created_at + otp_cooldown_ms))) [
                          | inl hot ↦ inl (
                            rw (window, day, latest, hot, request_otp, request_after),
                            rw (window, day, latest, hot, request_otp, request_after),
                          )
                          | inr cool ↦ inr (record {
                            answer = rw (window, day, latest, cool, request_otp, request_after);
                            in_window = ground (arith, window);
                            in_day = ground (arith, day);
                            cooled = λ j d e.
                                let same : some (id, c) ≡ some (j, d) = sym latest ∙ e in
                                let eq : c ≡ d = cc in rw (← eq) (ground (arith, cool));
                          })
                        ]
                  ]
                ]
        ]

pub consume_active-cases :
    (now id user_id : ℕ) (codes : Codes)
    → (consume_active now id user_id codes ≡ (false, codes))
      ⊎ ((c : PhoneVerification) × (lookup id codes ≡ some c)
          × ((c.user_id == user_id && is_valid now c) ≡ true)
          × (consume_active now id user_id codes ≡ (true, insert id (consumed now c) codes)))
unfolding consume_active
consume_active-cases now id user_id codes =
    elim (find_one-cases id (λ c. c.user_id == user_id && is_valid now c) codes) [
      | inl missed ↦ inl (rw (missed, consume_active))
      | inr (c, there, fits, hit) ↦ inr (c, there, fits, rw (hit, consume_active))
    ]

module _ (matches : String → String → Bool) where
  -- What the checks on a found code lead to.
  pub data IsConcluded (now finish user_id : ℕ) (code : String) (codes : Codes) (id : ℕ)
      (c : PhoneVerification) : Type 0 where
    is_locked :
        verify_found matches now finish user_id code codes id c ≡ (VerifyAnswer.locked, codes)
        → max_failed_attempts ≤ c.failed_attempts
        → IsConcluded now finish user_id code codes id c
    is_expired :
        verify_found matches now finish user_id code codes id c ≡ (VerifyAnswer.expired, codes)
        → c.expires_at ≤ now
        → IsConcluded now finish user_id code codes id c
    is_wrong :
        verify_found matches now finish user_id code codes id c
          ≡ (VerifyAnswer.invalid, (increment_failed_attempts id codes).1)
        → c.failed_attempts < max_failed_attempts
        → matches code c.code_hash ≡ false
        → IsConcluded now finish user_id code codes id c
    is_right :
        verify_found matches now finish user_id code codes id c
          ≡ verdict (consume_active finish id user_id codes)
        → c.failed_attempts < max_failed_attempts
        → matches code c.code_hash ≡ true
        → IsConcluded now finish user_id code codes id c

  pub verify_found-cases :
      (now finish user_id : ℕ) (code : String) (codes : Codes) (id : ℕ) (c : PhoneVerification)
      → IsConcluded now finish user_id code codes id c
  unfolding verify_found
  verify_found-cases now finish user_id code codes id c =
      elim (Bool-cases (leb max_failed_attempts c.failed_attempts)) [
        | inl many ↦ IsConcluded.is_locked (rw (many, verify_found)) (ground (arith, many))
        | inr few ↦ elim (Bool-cases (leb c.expires_at now)) [
          | inl late ↦ IsConcluded.is_expired (rw (few, late, verify_found)) (ground (arith, late))
          | inr timely ↦ elim (Bool-cases (matches code c.code_hash)) [
            | inl right ↦
                IsConcluded.is_right (rw (few, timely, right, verify_found)) (ground (arith, few))
                  right
            | inr wrong ↦
                IsConcluded.is_wrong (rw (few, timely, wrong, verify_found)) (ground (arith, few))
                  wrong
          ]
        ]
      ]

  -- What a verification needs and does: `stored` is the code that stands under the id by then.
  pub record IsVerified (now finish user_id : ℕ) (code : String) (codes : Codes) (id : ℕ)
      (c : PhoneVerification) : Type 0 where
    pub stored : PhoneVerification
    pub there : lookup id codes ≡ some stored
    pub fits : (stored.user_id == user_id && is_valid finish stored) ≡ true
    pub few : c.failed_attempts < max_failed_attempts
    pub right : matches code c.code_hash ≡ true
    pub result :
        verify_found matches now finish user_id code codes id c
        ≡ (VerifyAnswer.verified, insert id (consumed finish stored) codes)

  pub verify_found-IsVerified :
      (now finish user_id : ℕ) (code : String) (codes : Codes) (id : ℕ) (c : PhoneVerification)
      → (verify_found matches now finish user_id code codes id c).0 ≡ VerifyAnswer.verified
      → IsVerified now finish user_id code codes id c
  verify_found-IsVerified now finish user_id code codes id c v =
      elim (verify_found-cases now finish user_id code codes id c) [
        | IsConcluded.is_locked e _ ↦
            let h : VerifyAnswer.locked ≡ VerifyAnswer.verified = rw e at v in cc
        | IsConcluded.is_expired e _ ↦
            let h : VerifyAnswer.expired ≡ VerifyAnswer.verified = rw e at v in cc
        | IsConcluded.is_wrong e _ _ ↦
            let h : VerifyAnswer.invalid ≡ VerifyAnswer.verified = rw e at v in cc
        | IsConcluded.is_right e few right ↦ elim (consume_active-cases finish id user_id codes) [
          | inl lost ↦
              let h : VerifyAnswer.already_used ≡ VerifyAnswer.verified = rw (e, lost) at v in cc
          | inr (d, there, fits, won) ↦ record {
            stored = d;
            there = there;
            fits = fits;
            few = few;
            right = right;
            result = e ∙ ap verdict won;
          }
        ]
      ]
