-- ===== src/Phone/Removal.antt =====
-- The limits when the database removes what has expired.
use alsm_web_be.Base.{
  ℕ, ◌-◌, ◌≤◌, Bool, true, not, ◌&&◌, ◌||◌, ◌≡◌, ◌⊎◌, inl, inr, refl, none, [], ◌∷◌, String, leb,
  Bool-cases, arith,
}
use alsm_web_be.Phone.Repository.{Codes, is_of, find_latest_active, remove_expired, count_recent}
use alsm_web_be.Phone.Service.{
  RequestOtp, issue, request_after, request_otp, max_requests_per_window, max_requests_per_day,
  rate_limit_window_ms, day_ms,
}
use alsm_web_be.Phone.Outcomes.{IsRefused}

-- Every code of this user and phone has expired. The codes of others may be anything.
unfoldable pub own_expired : ℕ → ℕ → String → Codes → Bool
unfolding is_of
own_expired now user_id phone [] = true
own_expired now user_id phone ((k, c) ∷ codes) =
    (not (is_of user_id phone c) || leb c.expires_at now) && own_expired now user_id phone codes

count_recent-remove_expired :
    (now user_id : ℕ) (phone : String) (since : ℕ) (codes : Codes)
    → own_expired now user_id phone codes ≡ true
    → count_recent user_id phone since (remove_expired now codes) ≡ 0
unfolding remove_expired count_recent own_expired
count_recent-remove_expired now user_id phone since [] h = refl
count_recent-remove_expired now user_id phone since ((k, c) ∷ codes) h =
    ground (arith, count_recent-remove_expired now user_id phone since codes)

find_latest_active-remove_expired :
    (now user_id : ℕ) (phone : String) (codes : Codes)
    → own_expired now user_id phone codes ≡ true
    → find_latest_active now user_id phone (remove_expired now codes) ≡ none
unfolding remove_expired find_latest_active own_expired
find_latest_active-remove_expired now user_id phone [] h = refl
find_latest_active-remove_expired now user_id phone ((k, c) ∷ codes) h =
    ground (arith, find_latest_active-remove_expired now user_id phone codes)

limit-IsRefused :
    (now : ℕ) (r : RequestOtp) (codes : Codes)
    → (max_requests_per_window ≤ count_recent r.user_id r.phone (now - rate_limit_window_ms) codes)
      ⊎ (max_requests_per_day ≤ count_recent r.user_id r.phone (now - day_ms) codes)
    → IsRefused now r codes
unfolding request_otp
limit-IsRefused now r codes reached =
    elim (Bool-cases (
      leb max_requests_per_window
        (count_recent r.user_id r.phone (now - rate_limit_window_ms) codes))) [
          | inl full ↦ (rw (full, request_otp), rw (full, request_otp))
          | inr room ↦
              let day : leb max_requests_per_day
                    (count_recent r.user_id r.phone (now - day_ms) codes)
                  ≡ true =
                ground (arith, reached, room) in
              (rw (room, day, request_otp), rw (room, day, request_otp))
        ]

-- When every code of the user and phone has expired, and at least three of them were created within
-- the last ten minutes or at least ten within the last day: before the database removes the expired
-- codes a request is refused and writes nothing, and after it the same request at the same time
-- issues a code.
pub request_otp-remove_expired :
    (now : ℕ) (r : RequestOtp) (codes : Codes)
    → own_expired now r.user_id r.phone codes ≡ true
    → (max_requests_per_window ≤ count_recent r.user_id r.phone (now - rate_limit_window_ms) codes)
      ⊎ (max_requests_per_day ≤ count_recent r.user_id r.phone (now - day_ms) codes)
    → IsRefused now r codes
      × (request_otp now r (remove_expired now codes) ≡ issue now r (remove_expired now codes))
unfolding request_otp request_after
request_otp-remove_expired now r codes old reached = (
  limit-IsRefused now r codes reached,
  rw (
    count_recent-remove_expired now r.user_id r.phone (now - rate_limit_window_ms) codes old,
    count_recent-remove_expired now r.user_id r.phone (now - day_ms) codes old,
    find_latest_active-remove_expired now r.user_id r.phone codes old,
    request_otp,
  ),
)
