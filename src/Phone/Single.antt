-- ===== src/Phone/Single.antt =====
-- A code is used once.
use alsm_web_be.Base.{
  ℕ, Bool, true, false, not, ◌&&◌, ◌||◌, ◌≡◌, ◌≢◌, refl, some, List, [], ◌∷◌, String, ◌==◌, ==_iff,
  exists_value, lookup, insert, arith, Bool-cases, Option-cases, inl, inr,
}
use alsm_web_be.Phone.Repository.{
  PhoneVerification, Codes, is_valid, is_of, is_unused, consumed, failed, consume_active,
  increment_failed_attempts, create, new_code, revoked, revoke_all, remove_expired,
}
use alsm_web_be.Phone.Service.{
  RequestOtp, code_input, issue, request_otp, VerifyAnswer, verify_found, verdict,
}
use alsm_web_be.Phone.Tables.{has_id, is_distinct}
use alsm_web_be.Phone.Outcomes.{
  request_otp-cases, consume_active-cases, IsConcluded, verify_found-cases, verify_found-IsVerified,
}
use alsm_web_be.Phone.Calls.{Event, after_all, avoids}

-- What stands under the id is consumed.
unfoldable pub is_spent : ℕ → Codes → Bool
is_spent id [] = true
is_spent id ((k, c) ∷ codes) = (not (k == id) || exists_value c.consumed_at) && is_spent id codes

absent_spent : (id : ℕ) (codes : Codes) → has_id id codes ≡ false → is_spent id codes ≡ true
unfolding has_id is_spent
absent_spent id [] h = refl
absent_spent id ((k, c) ∷ codes) h = ground (arith, absent_spent id codes)

is_spent-insert :
    (id k : ℕ) (v : PhoneVerification) (codes : Codes)
    → is_spent id codes ≡ true
    → (not (k == id) || exists_value v.consumed_at) ≡ true
    → is_spent id (insert k v codes) ≡ true
unfolding is_spent insert
is_spent-insert id k v [] h e = ground arith
is_spent-insert id k v ((j, c) ∷ codes) h e = ground (arith, is_spent-insert id k v codes)

is_spent-insert_self :
    (id : ℕ) (v : PhoneVerification) (codes : Codes)
    → is_distinct codes ≡ true
    → exists_value v.consumed_at ≡ true
    → is_spent id (insert id v codes) ≡ true
unfolding is_spent insert is_distinct
is_spent-insert_self id v [] one e = ground arith
is_spent-insert_self id v ((j, c) ∷ codes) one e = elim (Bool-cases (j == id)) [
  | inl same ↦
      let eq : j ≡ id = (==_iff j id).0 same in
      rw eq (ground (arith, e, one, eq, absent_spent id codes))
  | inr other ↦ ground (arith, is_spent-insert_self id v codes, other)
]

is_spent-revoke_all :
    (id now user_id : ℕ) (phone : String) (codes : Codes)
    → is_spent id codes ≡ true
    → is_spent id (revoke_all now user_id phone codes) ≡ true
unfolding is_spent revoke_all revoked
is_spent-revoke_all id now user_id phone [] h = refl
is_spent-revoke_all id now user_id phone ((k, c) ∷ codes) h =
    elim (Bool-cases (is_of user_id phone c && is_unused c)) [
      | inl fits ↦ rw fits (ground (arith, is_spent-revoke_all id now user_id phone codes))
      | inr apart ↦ rw apart (ground (arith, is_spent-revoke_all id now user_id phone codes))
    ]

is_spent-remove_expired :
    (id now : ℕ) (codes : Codes)
    → is_spent id codes ≡ true
    → is_spent id (remove_expired now codes) ≡ true
unfolding is_spent remove_expired
is_spent-remove_expired id now [] h = refl
is_spent-remove_expired id now ((k, c) ∷ codes) h =
    ground (arith, is_spent-remove_expired id now codes)

spent_lookup :
    (id : ℕ) (codes : Codes) (c : PhoneVerification)
    → is_spent id codes ≡ true
    → lookup id codes ≡ some c
    → exists_value c.consumed_at ≡ true
unfolding is_spent lookup
spent_lookup id [] c h e = cc
spent_lookup id ((k, d) ∷ codes) c h e = elim (Bool-cases (k == id)) [
  | inl same ↦
      let known : some d ≡ some c = rw same at e in
      let eq : d ≡ c = cc in rw (← eq) (ground (arith, same))
  | inr other ↦ spent_lookup id codes c (ground (arith, other)) (rw other at e)
]

is_spent-request_otp :
    (id now : ℕ) (r : RequestOtp) (codes : Codes)
    → is_spent id codes ≡ true
    → not (r.id == id) ≡ true
    → is_spent id (request_otp now r codes).1 ≡ true
unfolding issue create
is_spent-request_otp id now r codes h other = elim (request_otp-cases now r codes) [
  | inl refused ↦ rw refused.0 h
  | inr issued ↦ rw issued.answer (
      is_spent-insert id r.id (new_code now (code_input now r))
        (revoke_all now r.user_id r.phone codes)
        (is_spent-revoke_all id now r.user_id r.phone codes h) (ground arith))
]

is_spent-increment_failed_attempts :
    (id k : ℕ) (codes : Codes)
    → is_spent id codes ≡ true
    → is_spent id (increment_failed_attempts k codes).1 ≡ true
unfolding increment_failed_attempts failed
is_spent-increment_failed_attempts id k codes h = elim (Option-cases (lookup k codes)) [
  | inl missed ↦ rw (missed, increment_failed_attempts) h
  | inr (c, there) ↦
      rw (there, increment_failed_attempts)
        (is_spent-insert id k (failed c) codes h (elim (Bool-cases (k == id)) [
          | inl same ↦
              let eq : k ≡ id = (==_iff k id).0 same in
              let used = spent_lookup id codes c h (rw eq at there) in ground (arith, used)
          | inr other ↦ ground (arith, other)
        ]))
]

is_spent-consume_active :
    (id now k user_id : ℕ) (codes : Codes)
    → is_spent id codes ≡ true
    → is_spent id (consume_active now k user_id codes).1 ≡ true
unfolding consumed
is_spent-consume_active id now k user_id codes h = elim (consume_active-cases now k user_id codes) [
  | inl lost ↦ rw lost h
  | inr (c, there, fits, won) ↦
      rw won (is_spent-insert id k (consumed now c) codes h (ground arith))
]

verdict_codes : (r : Bool × Codes) → (verdict r).1 ≡ r.1
verdict_codes (true, codes) = refl
verdict_codes (false, codes) = refl

module _ (matches : String → String → Bool) where
  is_spent-verify_found :
      (id now finish user_id : ℕ) (code : String) (k : ℕ) (c : PhoneVerification) (codes : Codes)
      → is_spent id codes ≡ true
      → is_spent id (verify_found matches now finish user_id code codes k c).1 ≡ true
  is_spent-verify_found id now finish user_id code k c codes h =
      elim (verify_found-cases matches now finish user_id code codes k c) [
        | IsConcluded.is_locked e _ ↦ rw e h
        | IsConcluded.is_expired e _ ↦ rw e h
        | IsConcluded.is_wrong e _ _ ↦ rw e (is_spent-increment_failed_attempts id k codes h)
        | IsConcluded.is_right e _ _ ↦
            rw (e, verdict_codes (consume_active finish k user_id codes))
              (is_spent-consume_active id finish k user_id codes h)
      ]

  is_spent-after_all :
      (id : ℕ) (events : List Event) (codes : Codes)
      → is_spent id codes ≡ true
      → avoids id events ≡ true
      → is_spent id (after_all matches events codes) ≡ true
  unfolding after_all
  is_spent-after_all id [] codes h other = h
  is_spent-after_all id (Event.requested now r ∷ es) codes h other =
      is_spent-after_all id es _ (is_spent-request_otp id now r codes h (ground arith))
        (ground arith)
  is_spent-after_all id (Event.concluded now finish user_id code k c ∷ es) codes h other =
      is_spent-after_all id es _ (is_spent-verify_found id now finish user_id code k c codes h)
        other
  is_spent-after_all id (Event.removed now ∷ es) codes h other =
      is_spent-after_all id es _ (is_spent-remove_expired id now codes h) other

  spent_refused :
      (id now finish user_id : ℕ) (code : String) (c : PhoneVerification) (codes : Codes)
      → is_spent id codes ≡ true
      → (verify_found matches now finish user_id code codes id c).0 ≢ VerifyAnswer.verified
  unfolding is_valid is_unused
  spent_refused id now finish user_id code c codes h v =
      let won = verify_found-IsVerified matches now finish user_id code codes id c v in
      let used = spent_lookup id codes won.stored h won.there in
      let fits = won.fits in ground (arith, used, fits)

  verified_spent :
      (id now finish user_id : ℕ) (code : String) (c : PhoneVerification) (codes : Codes)
      → is_distinct codes ≡ true
      → (verify_found matches now finish user_id code codes id c).0 ≡ VerifyAnswer.verified
      → is_spent id (verify_found matches now finish user_id code codes id c).1 ≡ true
  unfolding consumed
  verified_spent id now finish user_id code c codes one v =
      let won = verify_found-IsVerified matches now finish user_id code codes id c v in
      rw won.result (is_spent-insert_self id (consumed finish won.stored) codes one refl)

  -- Where ids stand once, a code that was answered with verified is not answered so again: not
  -- by a second call of any user that found the code before the first one finished, nor after
  -- any requests for other ids, conclusions of other calls and removals of expired codes, in any
  -- order.
  pub verify_found-after_all :
      (id now finish user_id : ℕ) (code : String) (c : PhoneVerification) (codes : Codes)
      (events : List Event) (now' finish' user_id' : ℕ) (code' : String) (c' : PhoneVerification)
      → is_distinct codes ≡ true
      → (verify_found matches now finish user_id code codes id c).0 ≡ VerifyAnswer.verified
      → avoids id events ≡ true
      → (verify_found matches now' finish' user_id' code'
          (after_all matches events (verify_found matches now finish user_id code codes id c).1)
          id
          c').0
        ≢ VerifyAnswer.verified
  verify_found-after_all id now finish user_id code c codes events now' finish' user_id' code' c'
        one v other =
      spent_refused id now' finish' user_id' code' c' _ (
        is_spent-after_all id events _ (verified_spent id now finish user_id code c codes one v)
          other)
