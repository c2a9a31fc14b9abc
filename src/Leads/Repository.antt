-- ===== src/Leads/Repository.antt =====
-- infrastructure/mongo-lead.repository.ts: the commands that the status and the phone calls use.
-- Mongoose is strict unless a schema says otherwise: what the schema does not name, as
-- lastContactAt, is not written.
use alsm_web_be.Base.{
  ℕ, Bool, not, ◌&&◌, Option, none, some, List, [], ◌∷◌, ◌++◌, String, any, str_eq, lookup, insert,
  find_one,
}
use alsm_web_be.Leads.Types.{LeadStatus, same_status, PhoneCall, Lead, Leads}

pub record UpdateOptions : Type 0 where
  pub notes : Option String
  pub last_contacted_at : Option ℕ
  pub next_follow_up_at : Option ℕ

-- A field of `$set` that is left out when it is undefined.
abbrev pub or_old {ℓ} : {A : Type ℓ} → Option A → Option A → Option A
or_old (some a) old = some a
or_old none old = old

unfoldable pub with_status : ℕ → LeadStatus → UpdateOptions → Lead → Lead
with_status now status options l = record l {
  status = status;
  notes = or_old options.notes l.notes;
  next_follow_up_at = or_old options.next_follow_up_at l.next_follow_up_at;
  updated_at = now;
}

unfoldable pub update_status : ℕ → ℕ → LeadStatus → UpdateOptions → Leads → Option Lead × Leads
unfolding with_status
update_status now id status options leads = elim (lookup id leads) [
  | none ↦ (none, leads)
  | some l ↦
      (some (with_status now status options l), insert id (with_status now status options l) leads)
]

abbrev pub has_request : String → List PhoneCall → Bool
has_request request_id calls = any (λ c. str_eq c.request_id request_id) calls

unfoldable pub with_call : PhoneCall → LeadStatus → Lead → Lead
with_call call status l = record l {
  status = status;
  last_contacted_at = some call.created_at;
  next_follow_up_at = or_old call.follow_up_at l.next_follow_up_at;
  phone_calls = l.phone_calls ++ call ∷ [];
  updated_at = call.created_at;
}

unfoldable pub add_phone_call_once :
    ℕ → PhoneCall → LeadStatus → LeadStatus → Leads → Option Lead × Leads
unfolding with_call find_one
add_phone_call_once id call expected status leads =
    elim (find_one id
      (λ l. same_status l.status expected && not (has_request call.request_id l.phone_calls))
      leads) [
        | none ↦ (none, leads)
        | some l ↦ (some (with_call call status l), insert id (with_call call status l) leads)
      ]
