-- ===== src/Phone/Calls.antt =====
-- Sequences of what happens to the collection. The two halves of verifyOtp stand apart here, since
-- other calls run while bcrypt.compare is awaited: `concluded` is the second half, with the code
-- that the first half found in an earlier state.
use alsm_web_be.Base.{ℕ, Bool, true, not, ◌&&◌, List, [], ◌∷◌, String, ◌==◌}
use alsm_web_be.Phone.Repository.{PhoneVerification, Codes, remove_expired}
use alsm_web_be.Phone.Service.{RequestOtp, request_otp, verify_found}

pub data Event : Type 0 where
  requested : ℕ → RequestOtp → Event
  concluded : ℕ → ℕ → ℕ → String → ℕ → PhoneVerification → Event
  removed : ℕ → Event

module _ (matches : String → String → Bool) where
  unfoldable pub after : Event → Codes → Codes
  after (Event.requested now r) codes = (request_otp now r codes).1
  after (Event.concluded now finish user_id code id c) codes =
      (verify_found matches now finish user_id code codes id c).1
  after (Event.removed now) codes = remove_expired now codes

  unfoldable pub after_all : List Event → Codes → Codes
  unfolding after
  after_all [] codes = codes
  after_all (e ∷ es) codes = after_all es (after e codes)

-- No new code gets this id.
abbrev pub avoids : ℕ → List Event → Bool
avoids id [] = true
avoids id (Event.requested now r ∷ es) = not (r.id == id) && avoids id es
avoids id (Event.concluded now finish user_id code j c ∷ es) = avoids id es
avoids id (Event.removed now ∷ es) = avoids id es
