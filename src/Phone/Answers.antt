-- ===== src/Phone/Answers.antt =====
-- The answers of verifyOtp when no other call runs in between.
use alsm_web_be.Base.{
  ℕ, Bool, true, false, ◌&&◌, ◌≡◌, refl, Option, none, some, String, ltb, leb, ◌==◌, found_one,
  missed_one, if◌then◌else◌, arith, Bool-cases, Option-cases, inl, inr,
}
use alsm_web_be.Phone.Repository.{
  PhoneVerification, Codes, is_of, is_valid, find_latest_active, consume_active,
}
use alsm_web_be.Phone.Service.{VerifyAnswer, verify_found, verify_otp, verdict, max_failed_attempts}
use alsm_web_be.Phone.Tables.{is_distinct, IsFound, find_latest_active-IsFound}

used_answer :
    (r : Bool × Codes) (b : Bool)
    → r.0 ≡ b
    → (verdict r).0 ≡ (if b then VerifyAnswer.verified else VerifyAnswer.already_used)
used_answer (true, codes) true h = refl
used_answer (false, codes) false h = refl
used_answer (true, codes) false h = cc
used_answer (false, codes) true h = cc

-- With no other call in between, the use of a code succeeds exactly until it expires.
consume_active-in_time :
    (start finish user_id : ℕ) (phone : String) (id : ℕ) (c : PhoneVerification) (codes : Codes)
    → is_distinct codes ≡ true
    → IsFound start user_id phone id c codes
    → (consume_active finish id user_id codes).0 ≡ ltb finish c.expires_at
unfolding consume_active is_of is_valid
consume_active-in_time start finish user_id phone id c codes one hit =
    elim (Bool-cases (ltb finish c.expires_at)) [
      | inl timely ↦ rw (
        found_one codes id (λ d. d.user_id == user_id && is_valid finish d) c (hit.found one)
            (ground (arith, hit.of_user, hit.valid, timely)),
        consume_active,
        timely,
      )
      | inr late ↦ rw (
        missed_one codes id (λ d. d.user_id == user_id && is_valid finish d) c (hit.found one)
            (ground (arith, late)),
        consume_active,
        late,
      )
    ]

module _ (matches : String → String → Bool) where
  -- What the latest code that is unused and had not expired when it was searched is answered with,
  -- when its expiry is checked at `now` and it is used at `finish`.
  abbrev pub answer_for : ℕ → ℕ → String → Option (ℕ × PhoneVerification) → VerifyAnswer
  answer_for now finish code none = VerifyAnswer.not_found
  answer_for now finish code (some (id, c)) =
      if leb max_failed_attempts c.failed_attempts
      then VerifyAnswer.locked
      else if leb c.expires_at now
      then VerifyAnswer.expired
      else if matches code c.code_hash
      then (if ltb finish c.expires_at then VerifyAnswer.verified else VerifyAnswer.already_used)
      else VerifyAnswer.invalid

  found_answer :
      (start now finish user_id : ℕ) (phone code : String) (id : ℕ) (c : PhoneVerification)
      (codes : Codes)
      → is_distinct codes ≡ true
      → IsFound start user_id phone id c codes
      → (verify_found matches now finish user_id code codes id c).0
        ≡ answer_for now finish code (some (id, c))
  unfolding verify_found
  found_answer start now finish user_id phone code id c codes one hit =
      elim (Bool-cases (leb max_failed_attempts c.failed_attempts)) [
        | inl many ↦ rw (many, verify_found)
        | inr few ↦ elim (Bool-cases (leb c.expires_at now)) [
          | inl late ↦ rw (few, late, verify_found)
          | inr timely ↦ elim (Bool-cases (matches code c.code_hash)) [
            | inr wrong ↦ rw (few, timely, wrong, verify_found)
            | inl right ↦
                rw (few, timely, right, verify_found)
                  (used_answer (consume_active finish id user_id codes) (ltb finish c.expires_at)
                    (consume_active-in_time start finish user_id phone id c codes one hit))
          ]
        ]
      ]

  -- Where ids stand once and no other call runs in between, verifyOtp (which searches at `start`,
  -- checks the expiry at `now` and uses the code at `finish`) answers by the latest code of the user
  -- and phone that is unused and not expired at `start`: not found without one, locked after five
  -- wrong guesses, expired if it is so at `now`, invalid if the code does not match, verified if it
  -- has not expired at `finish` either, and else already used, though nobody has used it.
  pub verify_otp-answer_for :
      (start now finish user_id : ℕ) (phone code : String) (codes : Codes)
      → is_distinct codes ≡ true
      → (verify_otp matches start now finish user_id phone code codes).0
        ≡ answer_for now finish code (find_latest_active start user_id phone codes)
  unfolding verify_otp
  verify_otp-answer_for start now finish user_id phone code codes one =
      elim (Option-cases (find_latest_active start user_id phone codes)) [
        | inl nothing ↦ rw (nothing, verify_otp)
        | inr ((id, c), latest) ↦
            rw (latest, verify_otp)
              (found_answer start now finish user_id phone code id c codes one
                (find_latest_active-IsFound start user_id phone codes id c latest))
      ]
