-- ===== src/Phone/Repository.antt =====
-- infrastructure/mongo-phone-verification.repository.ts: the collection of codes, and one function
-- for each command, at the time `now` that it reads.
use alsm_web_be.Base.{
  ℕ, ◌+◌, Bool, true, false, not, ◌&&◌, Option, none, some, [], ◌∷◌, Table, String, ltb, leb, ◌==◌,
  str_eq, exists_value, lookup, insert, find_one, if◌then◌else◌,
}

pub record PhoneVerification : Type 0 where
  pub user_id : ℕ
  pub phone : String
  pub token_hash : String
  pub code_hash : String
  pub expires_at : ℕ
  pub consumed_at : Option ℕ
  pub created_at : ℕ
  pub failed_attempts : ℕ

pub record CreateVerification : Type 0 where
  pub user_id : ℕ
  pub phone : String
  pub token_hash : String
  pub code_hash : String
  pub expires_at : ℕ

abbrev pub Codes : Type 0
Codes = Table PhoneVerification

unfoldable pub new_code : ℕ → CreateVerification → PhoneVerification
new_code now i = record {
  user_id = i.user_id;
  phone = i.phone;
  token_hash = i.token_hash;
  code_hash = i.code_hash;
  expires_at = i.expires_at;
  consumed_at = none;
  created_at = now;
  failed_attempts = 0;
}

-- The id is the one that the database assigns.
unfoldable pub create : ℕ → ℕ → CreateVerification → Codes → Codes
unfolding new_code
create now id i codes = insert id (new_code now i) codes

unfoldable pub is_of : ℕ → String → PhoneVerification → Bool
is_of user_id phone c = c.user_id == user_id && str_eq c.phone phone

unfoldable pub is_unused : PhoneVerification → Bool
is_unused c = not (exists_value c.consumed_at)

unfoldable pub is_valid : ℕ → PhoneVerification → Bool
unfolding is_unused
is_valid now c = is_unused c && ltb now c.expires_at

-- The later of two, as `sort({ createdAt: -1 })` puts it first. Of equal times, the one that stands
-- first in the collection.
unfoldable pub later :
    ℕ × PhoneVerification → Option (ℕ × PhoneVerification) → ℕ × PhoneVerification
later e none = e
later (k, c) (some (j, d)) = if ltb c.created_at d.created_at then (j, d) else (k, c)

unfoldable pub find_latest_active : ℕ → ℕ → String → Codes → Option (ℕ × PhoneVerification)
unfolding is_of is_valid later
find_latest_active now user_id phone [] = none
find_latest_active now user_id phone ((k, c) ∷ codes) =
    let rest = find_latest_active now user_id phone codes in
    if is_of user_id phone c && is_valid now c then some (later (k, c) rest) else rest

unfoldable pub consumed : ℕ → PhoneVerification → PhoneVerification
consumed now c = record c { consumed_at = some now }

-- Whether one document was changed, and the codes after it.
unfoldable pub consume_active : ℕ → ℕ → ℕ → Codes → Bool × Codes
unfolding consumed is_valid find_one
consume_active now id user_id codes =
    elim (find_one id (λ c. c.user_id == user_id && is_valid now c) codes) [
      | none ↦ (false, codes)
      | some c ↦ (true, insert id (consumed now c) codes)
    ]

unfoldable pub failed : PhoneVerification → PhoneVerification
failed c = record c { failed_attempts = c.failed_attempts + 1 }

unfoldable pub increment_failed_attempts : ℕ → Codes → ℕ × Codes
unfolding failed
increment_failed_attempts id codes = elim (lookup id codes) [
  | none ↦ (0, codes)
  | some c ↦ (c.failed_attempts + 1, insert id (failed c) codes)
]

unfoldable pub revoked : ℕ → ℕ → String → PhoneVerification → PhoneVerification
unfolding is_of is_unused consumed
revoked now user_id phone c = if is_of user_id phone c && is_unused c then consumed now c else c

unfoldable pub revoke_all : ℕ → ℕ → String → Codes → Codes
unfolding revoked
revoke_all now user_id phone [] = []
revoke_all now user_id phone ((k, c) ∷ codes) =
    (k, revoked now user_id phone c) ∷ revoke_all now user_id phone codes

unfoldable pub count_recent : ℕ → String → ℕ → Codes → ℕ
unfolding is_of
count_recent user_id phone since [] = 0
count_recent user_id phone since ((k, c) ∷ codes) =
    (if is_of user_id phone c && leb since c.created_at then 1 else 0)
    + count_recent user_id phone since codes

-- The index with `expires: 0`: the database removes what has expired.
unfoldable pub remove_expired : ℕ → Codes → Codes
remove_expired now [] = []
remove_expired now ((k, c) ∷ codes) =
    let rest = remove_expired now codes in if leb c.expires_at now then rest else (k, c) ∷ rest
