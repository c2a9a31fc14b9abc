-- ===== src/Phone/Tables.antt =====
-- Sums over the collection of codes, and ids that stand once.
use alsm_web_be.Base.{
  ℕ, ◌+◌, ◌≤◌, Bool, true, false, not, ◌&&◌, ◌||◌, ◌≡◌, refl, Option, none, some, [], ◌∷◌, String,
  ltb, leb, ◌==◌, lookup, insert, if◌then◌else◌, arith, Bool-cases, inl, inr, sym, ◌∙◌, ◌⊎◌,
}
use alsm_web_be.Phone.Repository.{
  PhoneVerification, Codes, is_of, is_unused, is_valid, later, find_latest_active, consumed,
  revoked, revoke_all, count_recent, remove_expired,
}

unfoldable pub total : (PhoneVerification → ℕ) → Codes → ℕ
total f [] = 0
total f ((k, c) ∷ codes) = f c + total f codes

pub total-insert_le :
    (f : PhoneVerification → ℕ) (k : ℕ) (v : PhoneVerification) (codes : Codes)
    → total f (insert k v codes) ≤ total f codes + f v
unfolding total insert
total-insert_le f k v [] = omega arith
total-insert_le f k v ((j, c) ∷ codes) = ground (arith, total-insert_le f k v codes)

pub total-replace :
    (f : PhoneVerification → ℕ) (k : ℕ) (v c : PhoneVerification) (codes : Codes)
    → lookup k codes ≡ some c
    → total f (insert k v codes) + f c ≡ total f codes + f v
unfolding total insert lookup
total-replace f k v c [] found = cc
total-replace f k v c ((j, d) ∷ codes) found = elim (Bool-cases (j == k)) [
  | inl same ↦
      let e : some d ≡ some c = rw same at found in
      let e' : d ≡ c = cc in rw (same, ← e') (omega arith)
  | inr other ↦ rw other (omega (arith, total-replace f k v c codes (rw other at found)))
]

pub total-revoke_all :
    (f : PhoneVerification → ℕ) (now user_id : ℕ) (phone : String) (codes : Codes)
    → ((c : PhoneVerification) → f (consumed now c) ≡ f c)
    → total f (revoke_all now user_id phone codes) ≡ total f codes
unfolding total revoke_all revoked
total-revoke_all f now user_id phone [] same = refl
total-revoke_all f now user_id phone ((k, c) ∷ codes) same =
    let rest = total-revoke_all f now user_id phone codes same in
    elim (Bool-cases (is_of user_id phone c && is_unused c)) [
      | inl fits ↦ rw (fits, same c, rest)
      | inr apart ↦ rw (apart, rest)
    ]

pub total-remove_expired_le :
    (f : PhoneVerification → ℕ) (now : ℕ) (codes : Codes)
    → total f (remove_expired now codes) ≤ total f codes
unfolding total remove_expired
total-remove_expired_le f now [] = omega arith
total-remove_expired_le f now ((k, c) ∷ codes) = ground (arith, total-remove_expired_le f now codes)

pub total_mono :
    (f g : PhoneVerification → ℕ) (codes : Codes)
    → ((c : PhoneVerification) → f c ≤ g c)
    → total f codes ≤ total g codes
unfolding total
total_mono f g [] le = omega arith
total_mono f g ((k, c) ∷ codes) le = omega (arith, le c, total_mono f g codes le)

abbrev pub counts_recent : ℕ → String → ℕ → PhoneVerification → ℕ
counts_recent user_id phone since c =
    if is_of user_id phone c && leb since c.created_at then 1 else 0

pub count_recent-total :
    (user_id : ℕ) (phone : String) (since : ℕ) (codes : Codes)
    → count_recent user_id phone since codes ≡ total (counts_recent user_id phone since) codes
unfolding count_recent total
count_recent-total user_id phone since [] = refl
count_recent-total user_id phone since ((k, c) ∷ codes) =
    rw (count_recent-total user_id phone since codes)

-- Ids.
unfoldable pub has_id : ℕ → Codes → Bool
has_id id [] = false
has_id id ((k, c) ∷ codes) = k == id || has_id id codes

-- No id stands twice.
unfoldable pub is_distinct : Codes → Bool
is_distinct [] = true
is_distinct ((k, c) ∷ codes) = not (has_id k codes) && is_distinct codes

has_id-insert :
    (id k : ℕ) (v : PhoneVerification) (codes : Codes)
    → has_id id (insert k v codes) ≡ (k == id || has_id id codes)
unfolding has_id insert
has_id-insert id k v [] = refl
has_id-insert id k v ((j, c) ∷ codes) = ground (arith, has_id-insert id k v codes)

pub is_distinct-insert :
    (k : ℕ) (v : PhoneVerification) (codes : Codes)
    → is_distinct codes ≡ true
    → is_distinct (insert k v codes) ≡ true
unfolding is_distinct insert has_id
is_distinct-insert k v [] h = refl
is_distinct-insert k v ((j, c) ∷ codes) h =
    ground (arith, has_id-insert j k v codes, is_distinct-insert k v codes)

has_id-revoke_all :
    (id now user_id : ℕ) (phone : String) (codes : Codes)
    → has_id id (revoke_all now user_id phone codes) ≡ has_id id codes
unfolding has_id revoke_all
has_id-revoke_all id now user_id phone [] = refl
has_id-revoke_all id now user_id phone ((k, c) ∷ codes) =
    rw (has_id-revoke_all id now user_id phone codes)

pub is_distinct-revoke_all :
    (now user_id : ℕ) (phone : String) (codes : Codes)
    → is_distinct (revoke_all now user_id phone codes) ≡ is_distinct codes
unfolding is_distinct revoke_all
is_distinct-revoke_all now user_id phone [] = refl
is_distinct-revoke_all now user_id phone ((k, c) ∷ codes) =
    rw (has_id-revoke_all k now user_id phone codes, is_distinct-revoke_all now user_id phone codes)

has_id-remove_expired :
    (id now : ℕ) (codes : Codes)
    → has_id id codes ≡ false
    → has_id id (remove_expired now codes) ≡ false
unfolding has_id remove_expired
has_id-remove_expired id now [] h = h
has_id-remove_expired id now ((k, c) ∷ codes) h = ground (arith, has_id-remove_expired id now codes)

pub is_distinct-remove_expired :
    (now : ℕ) (codes : Codes)
    → is_distinct codes ≡ true
    → is_distinct (remove_expired now codes) ≡ true
unfolding is_distinct remove_expired
is_distinct-remove_expired now [] h = h
is_distinct-remove_expired now ((k, c) ∷ codes) h =
    ground (arith, has_id-remove_expired k now codes, is_distinct-remove_expired now codes)

-- A code that the search gives.
pub record IsFound (now user_id : ℕ) (phone : String) (id : ℕ) (c : PhoneVerification)
    (codes : Codes) : Type 0 where
  pub of_user : is_of user_id phone c ≡ true
  pub valid : is_valid now c ≡ true
  pub present : has_id id codes ≡ true
  pub found : is_distinct codes ≡ true → lookup id codes ≡ some c

IsFound-later :
    (now user_id : ℕ) (phone : String) (k id : ℕ) (d c : PhoneVerification) (codes : Codes)
    → IsFound now user_id phone id c codes
    → IsFound now user_id phone id c ((k, d) ∷ codes)
unfolding has_id is_distinct lookup
IsFound-later now user_id phone k id d c codes h = record {
  of_user = h.of_user;
  valid = h.valid;
  present = ground (arith, h.present);
  found = λ one. ground (arith, h.present, h.found);
}

IsFound-first :
    (now user_id : ℕ) (phone : String) (k : ℕ) (d : PhoneVerification) (codes : Codes)
    → (is_of user_id phone d && is_valid now d) ≡ true
    → IsFound now user_id phone k d ((k, d) ∷ codes)
unfolding has_id lookup
IsFound-first now user_id phone k d codes h = record {
  of_user = ground (arith, h);
  valid = ground (arith, h);
  present = ground arith;
  found = λ one. ground arith;
}

later-cases :
    (e : ℕ × PhoneVerification) (o : Option (ℕ × PhoneVerification))
    → (later e o ≡ e) ⊎ (o ≡ some (later e o))
unfolding later
later-cases e none = inl refl
later-cases (k, c) (some (j, d)) = elim (Bool-cases (ltb c.created_at d.created_at)) [
  | inl after ↦ inr (rw after)
  | inr before ↦ inl (rw before)
]

pub find_latest_active-IsFound :
    (now user_id : ℕ) (phone : String) (codes : Codes) (id : ℕ) (c : PhoneVerification)
    → find_latest_active now user_id phone codes ≡ some (id, c)
    → IsFound now user_id phone id c codes
unfolding find_latest_active
find_latest_active-IsFound now user_id phone [] id c e = cc
find_latest_active-IsFound now user_id phone ((k, d) ∷ codes) id c e =
    by_test (is_of user_id phone d && is_valid now d) refl
      (find_latest_active now user_id phone codes)
      (find_latest_active-IsFound now user_id phone codes) e
  where
    by_rest :
        (is_of user_id phone d && is_valid now d) ≡ true
        → (o : Option (ℕ × PhoneVerification))
        → ((j : ℕ) (b : PhoneVerification) → o ≡ some (j, b) → IsFound now user_id phone j b codes)
        → (p : ℕ × PhoneVerification) → later (k, d) o ≡ p
        → IsFound now user_id phone p.0 p.1 ((k, d) ∷ codes)
    by_rest fits o below p e = elim (later-cases (k, d) o) [
      | inl mine ↦
          let q : (k, d) ≡ p = sym mine ∙ e in
          rw (← q) (IsFound-first now user_id phone k d codes fits)
      | inr theirs ↦
          IsFound-later now user_id phone k p.0 d p.1 codes (below p.0 p.1 (rw e at theirs))
    ]

    by_test :
        (b : Bool)
        → (is_of user_id phone d && is_valid now d) ≡ b
        → (o : Option (ℕ × PhoneVerification))
        → ((j : ℕ) (b : PhoneVerification) → o ≡ some (j, b) → IsFound now user_id phone j b codes)
        → (if b then some (later (k, d) o) else o) ≡ some (id, c)
        → IsFound now user_id phone id c ((k, d) ∷ codes)
    by_test true fits o below e = by_rest fits o below (id, c) cc
    by_test false fits o below e = IsFound-later now user_id phone k id d c codes (below id c e)
