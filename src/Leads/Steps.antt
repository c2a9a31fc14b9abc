-- ===== src/Leads/Steps.antt =====
-- What a call may do to a stored lead.
use alsm_web_be.Base.{
  ℕ, Bool, true, false, not, ◌&&◌, ◌||◌, ◌≡◌, refl, sym, ◌∙◌, none, some, List, [], ◌∷◌, ◌++◌,
  String, str_eq, str_eq_iff, lookup, insert, arith, Bool-cases, inl, inr, ◌==◌, ==_iff,
  lookup-insert,
}
use alsm_web_be.Leads.Types.{
  LeadStatus, same_status, is_allowed_lead_status_transition, PhoneCall, Lead, Leads,
}
use alsm_web_be.Leads.Repository.{UpdateOptions, with_status, has_request, with_call}
use alsm_web_be.Leads.PhoneCalls.{find_call, status_after_call}

-- No two calls of a lead have one request id.
unfoldable pub is_once : List PhoneCall → Bool
is_once [] = true
is_once (c ∷ cs) = not (has_request c.request_id cs) && is_once cs

has_request-append :
    (r : String) (cs : List PhoneCall) (c : PhoneCall)
    → has_request r (cs ++ c ∷ []) ≡ (has_request r cs || str_eq c.request_id r)
has_request-append r [] c = ground arith
has_request-append r (d ∷ cs) c = ground (arith, has_request-append r cs c)

pub find_call-none :
    (r : String) (cs : List PhoneCall) → find_call r cs ≡ none → has_request r cs ≡ false
unfolding find_call
find_call-none r [] h = refl
find_call-none r (c ∷ cs) h = elim (Bool-cases (str_eq c.request_id r)) [
  | inl same ↦ let bad : some c ≡ none = rw same at h in cc
  | inr other ↦ rw other (find_call-none r cs (rw other at h))
]

is_once-append :
    (cs : List PhoneCall) (c : PhoneCall)
    → is_once cs ≡ true
    → has_request c.request_id cs ≡ false
    → is_once (cs ++ c ∷ []) ≡ true
unfolding is_once
is_once-append [] c h fresh = refl
is_once-append (d ∷ cs) c h fresh = ground (
  arith,
  is_once-append cs c,
  has_request-append d.request_id cs c,
  str_eq_iff c.request_id d.request_id,
  str_eq_iff d.request_id c.request_id,
)

pub find_call-append :
    (r : String) (cs : List PhoneCall) (c d : PhoneCall)
    → find_call r cs ≡ some c
    → find_call r (cs ++ d ∷ []) ≡ some c
unfolding find_call
find_call-append r [] c d h = cc
find_call-append r (e ∷ cs) c d h = elim (Bool-cases (str_eq e.request_id r)) [
  | inl same ↦ rw same (rw same at h)
  | inr other ↦ rw other (find_call-append r cs c d (rw other at h))
]

-- From one state of a lead to the next.
pub record IsStep (l m : Lead) : Type 0 where
  pub allowed : is_allowed_lead_status_transition l.status m.status ≡ true
  pub kept :
      (r : String) (c : PhoneCall)
      → find_call r l.phone_calls ≡ some c
      → find_call r m.phone_calls ≡ some c
  pub once : is_once l.phone_calls ≡ true → is_once m.phone_calls ≡ true

pub same_status_self : (s : LeadStatus) → same_status s s ≡ true
same_status_self s = ground arith

IsStep-self : (l : Lead) → IsStep l l
unfolding is_allowed_lead_status_transition
IsStep-self l = record {
  allowed = rw (same_status_self l.status);
  kept = λ r c h. h;
  once = λ h. h;
}

pub IsStep-with_status :
    (now : ℕ) (status : LeadStatus) (options : UpdateOptions) (l : Lead)
    → is_allowed_lead_status_transition l.status status ≡ true
    → IsStep l (with_status now status options l)
unfolding with_status
IsStep-with_status now status options l h = record { allowed = h; kept = λ r c e. e; once = λ e. e }

status_after_call_allowed :
    (s : LeadStatus) → is_allowed_lead_status_transition s (status_after_call s) ≡ true
unfolding is_allowed_lead_status_transition
status_after_call_allowed LeadStatus.new = refl
status_after_call_allowed LeadStatus.contacted = refl
status_after_call_allowed LeadStatus.qualified = refl
status_after_call_allowed LeadStatus.proposal = refl
status_after_call_allowed LeadStatus.negotiation = refl
status_after_call_allowed LeadStatus.won = refl
status_after_call_allowed LeadStatus.lost = refl

pub IsStep-with_call :
    (call : PhoneCall) (l : Lead)
    → find_call call.request_id l.phone_calls ≡ none
    → IsStep l (with_call call (status_after_call l.status) l)
unfolding with_call
IsStep-with_call call l fresh = record {
  allowed = status_after_call_allowed l.status;
  kept = λ r c e. find_call-append r l.phone_calls c call e;
  once =
      λ e. is_once-append l.phone_calls call e (find_call-none call.request_id l.phone_calls fresh);
}

-- Every lead is there afterwards, after a step or untouched.
abbrev pub IsForward : Leads → Leads → Type 0
IsForward leads after =
    (id : ℕ) (l : Lead)
    → lookup id leads ≡ some l
    → (m : Lead) × (lookup id after ≡ some m) × IsStep l m

pub IsForward-self : (leads : Leads) → IsForward leads leads
IsForward-self leads id l there = (l, there, IsStep-self l)

pub IsForward-insert :
    (k : ℕ) (l v : Lead) (leads : Leads)
    → lookup k leads ≡ some l
    → IsStep l v
    → IsForward leads (insert k v leads)
IsForward-insert k l v leads there s id m here = elim (Bool-cases (k == id)) [
  | inl same ↦
      let e : k ≡ id = (==_iff k id).0 same in
      let known : some l ≡ some m = sym there ∙ rw e here in
      let eq : l ≡ m = cc in (v, rw (lookup-insert k id v leads, same), rw (← eq) s)
  | inr other ↦ (m, rw (lookup-insert k id v leads, other) here, IsStep-self m)
]
