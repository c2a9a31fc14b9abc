-- ===== src/Phone/Windows.antt =====
-- The codes that are created in a stretch of time, and what single writes do to their number.
use alsm_web_be.Base.{
  ℕ, ◌+◌, ◌-◌, ◌≤◌, ◌<◌, Bool, true, false, ◌&&◌, ◌≡◌, refl, some, String, leb, ==_iff, str_eq_iff,
  lookup, insert, if◌then◌else◌, arith, Bool-cases, Option-cases, inl, inr, ◌∙◌,
}
use alsm_web_be.Phone.Repository.{
  PhoneVerification, Codes, is_of, consumed, failed, increment_failed_attempts, create, new_code,
  revoke_all, count_recent,
}
use alsm_web_be.Phone.Service.{RequestOtp, code_input, issue}
use alsm_web_be.Phone.Tables.{
  total, total-insert_le, total-replace, total-revoke_all, total_mono, counts_recent,
  count_recent-total,
}

-- Codes of one user and phone that were created from `start` on, for the time `span`.
abbrev pub within : ℕ → String → ℕ → ℕ → PhoneVerification → ℕ
within user_id phone start span c =
    if is_of user_id phone c && leb start c.created_at && leb c.created_at (start + span)
    then 1
    else 0

-- All of them up to now are recent.
within_recent :
    (user_id : ℕ) (phone : String) (start span now : ℕ) (codes : Codes)
    → now ≤ start + span
    → total (within user_id phone start span) codes ≤ count_recent user_id phone (now - span) codes
within_recent user_id phone start span now codes late =
    rw (count_recent-total user_id phone (now - span) codes) (
      total_mono (within user_id phone start span) (counts_recent user_id phone (now - span)) codes
        (λ c. pointwise c (is_of user_id phone c)))
  where
    pointwise :
        (c : PhoneVerification) (b : Bool)
        → (if b && leb start c.created_at && leb c.created_at (start + span) then 1 else 0)
          ≤ (if b && leb (now - span) c.created_at then 1 else 0)
    pointwise c true = ground arith
    pointwise c false = ground arith

abbrev new_of : ℕ → RequestOtp → PhoneVerification
new_of now r = new_code now (code_input now r)

issue-total :
    (f : PhoneVerification → ℕ) (now : ℕ) (r : RequestOtp) (codes : Codes)
    → ((c : PhoneVerification) → f (consumed now c) ≡ f c)
    → total f (issue now r codes).1 ≤ total f codes + f (new_of now r)
unfolding issue create
issue-total f now r codes same = omega (
  arith,
  total-revoke_all f now r.user_id r.phone codes same,
  total-insert_le f r.id (new_of now r) (revoke_all now r.user_id r.phone codes),
)

same_user :
    (user_id : ℕ) (phone : String) (now : ℕ) (r : RequestOtp)
    → is_of user_id phone (new_of now r) ≡ true
    → (r.user_id ≡ user_id) × (r.phone ≡ phone)
unfolding is_of new_code code_input
same_user user_id phone now r h =
    ((==_iff r.user_id user_id).0 (ground arith), (str_eq_iff r.phone phone).0 (ground arith))

pub within-consumed :
    (user_id : ℕ) (phone : String) (start span now : ℕ) (c : PhoneVerification)
    → within user_id phone start span (consumed now c) ≡ within user_id phone start span c
unfolding consumed is_of
within-consumed user_id phone start span now c = refl

within-failed :
    (user_id : ℕ) (phone : String) (start span : ℕ) (c : PhoneVerification)
    → within user_id phone start span (failed c) ≡ within user_id phone start span c
unfolding failed is_of
within-failed user_id phone start span c = refl

within_new :
    (user_id : ℕ) (phone : String) (start span now : ℕ) (r : RequestOtp)
    → within user_id phone start span (new_of now r) ≡ (
        if is_of user_id phone (new_of now r) && leb start now && leb now (start + span)
        then 1
        else 0)
unfolding new_code
within_new user_id phone start span now r = refl

-- A new code, while there are fewer than `most` recent ones.
pub within-issue :
    (user_id : ℕ) (phone : String) (start span most now : ℕ) (r : RequestOtp) (codes : Codes)
    → count_recent r.user_id r.phone (now - span) codes < most
    → total (within user_id phone start span) codes ≤ most
    → total (within user_id phone start span) (issue now r codes).1 ≤ most
within-issue user_id phone start span most now r codes room le =
    elim (Bool-cases
      (is_of user_id phone (new_of now r) && leb start now && leb now (start + span))) [
        | inl counted ↦
            let (u, p) = same_user user_id phone now r (ground (arith, counted)) in
            let few : count_recent user_id phone (now - span) codes < most = rw (u, p) at room in
            let recent =
              within_recent user_id phone start span now codes (ground (arith, counted)) in
            let one : within user_id phone start span (new_of now r) ≤ 1 = ground arith in
            omega (arith, grows, few, recent, one)
        | inr other ↦
            let none_new : within user_id phone start span (new_of now r) ≡ 0 =
              within_new user_id phone start span now r ∙ rw other in
            omega (arith, grows, none_new, le)
      ]
  where
    grows :
        total (within user_id phone start span) (issue now r codes).1
        ≤ total (within user_id phone start span) codes
          + within user_id phone start span (new_of now r)
    grows =
        issue-total (within user_id phone start span) now r codes
          (within-consumed user_id phone start span now)

pub replace_same :
    (f : PhoneVerification → ℕ) (id : ℕ) (v c : PhoneVerification) (codes : Codes)
    → lookup id codes ≡ some c
    → f v ≡ f c
    → total f (insert id v codes) ≡ total f codes
replace_same f id v c codes there same = omega (arith, same, total-replace f id v c codes there)

pub increment-within :
    (user_id : ℕ) (phone : String) (start span id : ℕ) (codes : Codes)
    → total (within user_id phone start span) (increment_failed_attempts id codes).1
      ≡ total (within user_id phone start span) codes
unfolding increment_failed_attempts
increment-within user_id phone start span id codes = elim (Option-cases (lookup id codes)) [
  | inl missed ↦ rw (missed, increment_failed_attempts)
  | inr (c, there) ↦
      rw (there, increment_failed_attempts)
        (replace_same (within user_id phone start span) id (failed c) c codes there
          (within-failed user_id phone start span c))
]
