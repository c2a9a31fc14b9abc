-- ===== src/Phone/Guesses.antt =====
-- How often a code can be guessed at, over sequences of whole calls.
use alsm_web_be.Base.{
  ℕ, ◌+◌, ◌-◌, ◌*◌, ◌≤◌, Bool, true, false, ◌≡◌, refl, some, List, [], ◌∷◌, String, lookup,
  if◌then◌else◌, arith, Option-cases, inl, inr,
}
use alsm_web_be.Phone.Repository.{
  PhoneVerification, Codes, find_latest_active, consumed, failed, increment_failed_attempts, create,
  new_code, revoke_all, remove_expired,
}
use alsm_web_be.Phone.Service.{
  RequestOtp, delivery, code_input, issue, request_otp, VerifyAnswer, verify_found, verify_otp,
  max_failed_attempts,
}
use alsm_web_be.Phone.Tables.{
  total, total-insert_le, total-replace, total-revoke_all, total-remove_expired_le, is_distinct,
  is_distinct-insert, is_distinct-revoke_all, is_distinct-remove_expired,
  find_latest_active-IsFound,
}
use alsm_web_be.Phone.Outcomes.{
  is_refusal, request_otp-cases, consume_active-cases, IsConcluded, verify_found-cases,
}

pub data Call : Type 0 where
  requests : ℕ → RequestOtp → Call
  verifies : ℕ → ℕ → ℕ → ℕ → String → String → Call
  removes : ℕ → Call

abbrev is_invalid : VerifyAnswer → Bool
is_invalid VerifyAnswer.invalid = true
is_invalid _ = false

-- The wrong guesses that are left.
abbrev left : PhoneVerification → ℕ
left c = max_failed_attempts - c.failed_attempts

left-issue :
    (now : ℕ) (r : RequestOtp) (codes : Codes)
    → total left (issue now r codes).1 ≤ total left codes + 5
unfolding issue create new_code consumed
left-issue now r codes =
    let same = total-revoke_all left now r.user_id r.phone codes (λ c. refl) in
    omega (
      arith,
      same,
      total-insert_le left r.id (new_code now (code_input now r))
          (revoke_all now r.user_id r.phone codes),
    )

distinct-issue :
    (now : ℕ) (r : RequestOtp) (codes : Codes)
    → is_distinct codes ≡ true
    → is_distinct (issue now r codes).1 ≡ true
unfolding issue create
distinct-issue now r codes one =
    is_distinct-insert r.id (new_code now (code_input now r))
      (revoke_all now r.user_id r.phone codes)
      (rw (is_distinct-revoke_all now r.user_id r.phone codes) one)

issue_sends : (now : ℕ) (r : RequestOtp) (codes : Codes) → is_refusal (issue now r codes).0 ≡ false
unfolding issue
issue_sends now r codes = by_delivery r.is_delivered
  where
    by_delivery : (b : Bool) → is_refusal (delivery b) ≡ false
    by_delivery true = refl
    by_delivery false = refl

module _ (matches : String → String → Bool) where
  unfoldable pub after_call : Call → Codes → Codes
  after_call (Call.requests now r) codes = (request_otp now r codes).1
  after_call (Call.verifies start now finish user_id phone code) codes =
      (verify_otp matches start now finish user_id phone code codes).1
  after_call (Call.removes now) codes = remove_expired now codes

  -- Whether the call compared a code in vain.
  unfoldable pub guesses_in : Call → Codes → ℕ
  guesses_in (Call.requests now r) codes = 0
  guesses_in (Call.verifies start now finish user_id phone code) codes =
      if is_invalid (verify_otp matches start now finish user_id phone code codes).0 then 1 else 0
  guesses_in (Call.removes now) codes = 0

  -- Whether the call issued a code.
  unfoldable pub issues_in : Call → Codes → ℕ
  issues_in (Call.requests now r) codes = if is_refusal (request_otp now r codes).0 then 0 else 1
  issues_in (Call.verifies start now finish user_id phone code) codes = 0
  issues_in (Call.removes now) codes = 0

  unfoldable pub guesses : List Call → Codes → ℕ
  unfolding guesses_in after_call
  guesses [] codes = 0
  guesses (c ∷ cs) codes = guesses_in c codes + guesses cs (after_call c codes)

  unfoldable pub issues : List Call → Codes → ℕ
  unfolding issues_in after_call
  issues [] codes = 0
  issues (c ∷ cs) codes = issues_in c codes + issues cs (after_call c codes)

  -- What a call uses up of the guesses that are left.
  record IsBounded (c : Call) (codes : Codes) : Type 0 where
    distinct : is_distinct (after_call c codes) ≡ true
    spends :
        guesses_in c codes + total left (after_call c codes)
        ≤ total left codes + 5 * issues_in c codes

  requests-IsBounded :
      (now : ℕ) (r : RequestOtp) (codes : Codes)
      → is_distinct codes ≡ true
      → IsBounded (Call.requests now r) codes
  unfolding after_call guesses_in issues_in
  requests-IsBounded now r codes one = elim (request_otp-cases now r codes) [
    | inl refused ↦ record {
      distinct = rw (refused.0, after_call) one;
      spends = rw (after_call, issues_in, refused.0, refused.1) (omega arith);
    }
    | inr issued ↦ record {
      distinct = rw (issued.answer, after_call) (distinct-issue now r codes one);
      spends =
          rw (after_call, issues_in, issued.answer, issue_sends now r codes)
            (omega (arith, left-issue now r codes));
    }
  ]

  record IsSpending (r : VerifyAnswer × Codes) (codes : Codes) : Type 0 where
    distinct : is_distinct r.1 ≡ true
    spends : (if is_invalid r.0 then 1 else 0) + total left r.1 ≤ total left codes

  found-IsSpending :
      (now finish user_id : ℕ) (code : String) (codes : Codes) (id : ℕ) (c : PhoneVerification)
      → is_distinct codes ≡ true
      → lookup id codes ≡ some c
      → IsSpending (verify_found matches now finish user_id code codes id c) codes
  unfolding increment_failed_attempts failed consumed
  found-IsSpending now finish user_id code codes id c one there =
      elim (verify_found-cases matches now finish user_id code codes id c) [
        | IsConcluded.is_locked e _ ↦ rw e (record { distinct = one; spends = omega arith })
        | IsConcluded.is_expired e _ ↦ rw e (record { distinct = one; spends = omega arith })
        | IsConcluded.is_wrong e few _ ↦
            rw (e, there, increment_failed_attempts)
              (record {
                distinct = is_distinct-insert id (failed c) codes one;
                spends = omega (arith, few, total-replace left id (failed c) c codes there);
              })
        | IsConcluded.is_right e _ _ ↦ elim (consume_active-cases finish id user_id codes) [
          | inl lost ↦ rw (e, lost) (record { distinct = one; spends = omega arith })
          | inr (d, here, fits, won) ↦
              rw (e, won)
                (record {
                  distinct = is_distinct-insert id (consumed finish d) codes one;
                  spends = omega (arith, total-replace left id (consumed finish d) d codes here);
                })
        ]
      ]

  verify-IsSpending :
      (start now finish user_id : ℕ) (phone code : String) (codes : Codes)
      → is_distinct codes ≡ true
      → IsSpending (verify_otp matches start now finish user_id phone code codes) codes
  unfolding verify_otp
  verify-IsSpending start now finish user_id phone code codes one =
      elim (Option-cases (find_latest_active start user_id phone codes)) [
        | inl nothing ↦ rw (nothing, verify_otp) (record { distinct = one; spends = omega arith })
        | inr ((id, c), latest) ↦
            let hit = find_latest_active-IsFound start user_id phone codes id c latest in
            rw (latest, verify_otp)
              (found-IsSpending now finish user_id code codes id c one (hit.found one))
      ]

  call-IsBounded : (c : Call) (codes : Codes) → is_distinct codes ≡ true → IsBounded c codes
  unfolding after_call guesses_in issues_in
  call-IsBounded (Call.requests now r) codes one = requests-IsBounded now r codes one
  call-IsBounded (Call.verifies start now finish user_id phone code) codes one =
      let s = verify-IsSpending start now finish user_id phone code codes one in
      record { distinct = s.distinct; spends = omega (arith, s.spends) }
  call-IsBounded (Call.removes now) codes one = record {
    distinct = is_distinct-remove_expired now codes one;
    spends = omega (arith, total-remove_expired_le left now codes);
  }

  guesses_le :
      (cs : List Call) (codes : Codes)
      → is_distinct codes ≡ true
      → guesses cs codes ≤ total left codes + 5 * issues cs codes
  unfolding guesses issues
  guesses_le [] codes one = omega arith
  guesses_le (c ∷ cs) codes one =
      let b = call-IsBounded c codes one in
      omega (arith, b.spends, guesses_le cs (after_call c codes) b.distinct)

  -- Over any sequence of whole calls from an empty collection, removals of expired codes
  -- included, at most five wrong codes are compared for each code that was issued.
  pub guesses-issues : (cs : List Call) → guesses cs [] ≤ max_failed_attempts * issues cs []
  unfolding total is_distinct
  guesses-issues cs = omega (arith, guesses_le cs [] refl)
