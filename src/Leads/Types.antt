-- ===== src/Leads/Types.antt =====
-- domain/lead.types.ts, with the fields of a lead that the status and the phone calls use. A lead is
-- stored as the schema has it, with a status; leads of before, with a stage, are left out.
use alsm_web_be.Base.{ℕ, Bool, ◌||◌, Option, List, [], ◌∷◌, String, Table, any, ◌==◌}

pub data LeadStatus : Type 0 where
  new contacted qualified proposal negotiation won lost : LeadStatus

abbrev status_code : LeadStatus → ℕ
status_code LeadStatus.new = 0
status_code LeadStatus.contacted = 1
status_code LeadStatus.qualified = 2
status_code LeadStatus.proposal = 3
status_code LeadStatus.negotiation = 4
status_code LeadStatus.won = 5
status_code LeadStatus.lost = 6

abbrev pub same_status : LeadStatus → LeadStatus → Bool
same_status a b = status_code a == status_code b

-- ALLOWED_LEAD_STATUS_TRANSITIONS
abbrev pub allowed_transitions : LeadStatus → List LeadStatus
allowed_transitions LeadStatus.new =
    LeadStatus.contacted ∷ LeadStatus.qualified ∷ LeadStatus.lost ∷ []
allowed_transitions LeadStatus.contacted =
    LeadStatus.qualified ∷ LeadStatus.proposal ∷ LeadStatus.lost ∷ []
allowed_transitions LeadStatus.qualified =
    LeadStatus.proposal ∷ LeadStatus.negotiation ∷ LeadStatus.lost ∷ []
allowed_transitions LeadStatus.proposal =
    LeadStatus.negotiation ∷ LeadStatus.won ∷ LeadStatus.lost ∷ []
allowed_transitions LeadStatus.negotiation =
    LeadStatus.proposal ∷ LeadStatus.won ∷ LeadStatus.lost ∷ []
allowed_transitions LeadStatus.won = LeadStatus.negotiation ∷ LeadStatus.lost ∷ []
allowed_transitions LeadStatus.lost =
    LeadStatus.new ∷ LeadStatus.contacted ∷ LeadStatus.qualified ∷ []

unfoldable pub is_allowed_lead_status_transition : LeadStatus → LeadStatus → Bool
is_allowed_lead_status_transition current target =
    same_status current target || any (λ s. same_status s target) (allowed_transitions current)

pub data CallOutcome : Type 0 where
  connected no_answer voicemail callback_requested not_interested : CallOutcome

pub record PhoneCall : Type 0 where
  pub id : ℕ
  pub request_id : String
  pub request_fingerprint : String
  pub duration_minutes : ℕ
  pub outcome : CallOutcome
  pub summary : String
  pub notes : Option String
  pub follow_up_at : Option ℕ
  pub performed_by_user_id : ℕ
  pub performed_by_email : String
  pub created_at : ℕ

pub record Lead : Type 0 where
  pub status : LeadStatus
  pub notes : Option String
  pub last_contacted_at : Option ℕ
  pub next_follow_up_at : Option ℕ
  pub phone_calls : List PhoneCall
  pub updated_at : ℕ

abbrev pub Leads : Type 0
Leads = Table Lead

pub data LeadError : Type 0 where
  invalid_lead_id invalid_status lead_not_found invalid_status_transition unauthorized
        invalid_idempotency_key invalid_call_summary invalid_call_duration invalid_call_outcome
        invalid_follow_up_date invalid_call_notes idempotency_key_reused lead_state_changed :
      LeadError

pub data Result (A : Type 0) : Type 0 where
  ok : A → Result A
  raise : LeadError → Result A
