-- ===== src/Contracts/Store.antt =====
-- The three collections that the repository reads and writes, what a repository call returns, and
-- the reads that the calls share (mongo-contract-aggregate.repository.ts). A call runs in a
-- transaction: an error aborts it, so only a call that returns has a store after it.
use Prim.Native.Char.{code}
use Prim.Native.String.{String}
use alsm_web_be.Base.{
  ℕ, Bool, true, false, ◌&&◌, ◌||◌, not, Option, none, some, List, [], ◌∷◌, Table, find_one, any,
  all, leb, ◌==◌, str_eq, is_empty, is_run_of, is_hex_lower, units,
}
use alsm_web_be.Contracts.Types.{
  LifecycleStatus, same_lifecycle, ReviewStatus, VersionReviewStatus, TemplateSnapshot, Terms,
  Version, Contract,
}

-- A ContractAccessGrant; ACTIVE is its only status.
pub record Grant : Type 0 where
  pub lead_id : ℕ
  pub user_id : ℕ

pub record Store : Type 0 where
  pub contracts : Table Contract
  pub versions : Table Version
  pub grants : List Grant

-- ContractWithCurrentVersion, with the ids of both documents.
pub record WithVersion : Type 0 where
  pub id : ℕ
  pub contract : Contract
  pub version_id : ℕ
  pub version : Version

pub data Error : Type 0 where
  contract_version_missing idempotency_key_reused contract_state_conflict : Error
  contract_version_state_conflict approved_legal_template_required : Error
  review_reason_required final_evidence_manifest_invalid final_evidence_version_mismatch : Error
  final_evidence_already_archived final_evidence_state_conflict : Error
  duplicate_key validation_failed : Error

-- `done none s` is a call that returns null: its transaction goes on with the store `s`.
pub data Outcome (A : Type 0) : Type 0 where
  done : Option A → Store → Outcome A
  raise : Error → Outcome A

abbrev pub lifecycle_in : LifecycleStatus → List LifecycleStatus → Bool
lifecycle_in s l = any (same_lifecycle s) l

unfoldable pub is_approved : ReviewStatus → Bool
is_approved ReviewStatus.approved = true
is_approved _ = false

unfoldable pub is_version_approved : VersionReviewStatus → Bool
is_version_approved VersionReviewStatus.approved = true
is_version_approved _ = false

-- `reviewStatus: { $in: ['APPROVED', 'CHANGES_REQUESTED', 'REJECTED'] }`
unfoldable pub is_reviewed : ReviewStatus → Bool
is_reviewed ReviewStatus.not_submitted = false
is_reviewed ReviewStatus.pending = false
is_reviewed _ = true

-- `grants.exists({ leadId, userId, status: 'ACTIVE' })`
unfoldable pub has_active_grant : ℕ → ℕ → List Grant → Bool
has_active_grant lead user grants = any (λ g. g.lead_id == lead && g.user_id == user) grants

-- The current version of a contract as it stands in `versions`.
unfoldable pub load_current : Table Version → ℕ → Contract → Option WithVersion
load_current versions id c =
    elim (find_one c.current_version_id (λ v. v.contract_id == id) versions) [
      | none ↦ none
      | some v ↦
          some (record { id = id; contract = c; version_id = c.current_version_id; version = v })
    ]

unfoldable pub find_for_lead : ℕ → ℕ → ℕ → Store → Option WithVersion
unfolding load_current
find_for_lead id lead organization s =
    elim (find_one id (λ c. c.lead_id == lead && c.organization_id == organization) s.contracts) [
      | none ↦ none
      | some c ↦ load_current s.versions id c
    ]

-- `required: true` on a string, and `maxlength`.
abbrev within : ℕ → String → Bool
within most s = not (is_empty s) && leb (units s) most

abbrev optional_within : ℕ → Option String → Bool
optional_within most none = true
optional_within most (some s) = leb (units s) most

abbrev is_digit : ℕ → Bool
is_digit c = leb b'0' c && leb c b'9'

-- `/^\d{4}-\d{2}-\d{2}$/`
unfoldable pub is_day : List ℕ → Bool
is_day (a ∷ b ∷ c ∷ d ∷ e ∷ f ∷ g ∷ h ∷ i ∷ j ∷ []) =
    all is_digit (a ∷ b ∷ c ∷ d ∷ f ∷ g ∷ i ∷ j ∷ []) && e == b'-' && h == b'-'
is_day _ = false

unfoldable pub codes : String → List ℕ
codes String.[] = []
codes (String.◌∷◌ c s) = code c ∷ codes s

abbrev is_locale : String → Bool
is_locale l = str_eq l "vi" || str_eq l "en" || str_eq l "vi-en"

abbrev is_valid_section : String × String → Bool
is_valid_section (heading, body) = within 120 heading && within 20000 body

unfoldable pub is_valid_snapshot : Option TemplateSnapshot → Bool
unfolding units is_hex_lower is_run_of
is_valid_snapshot none = true
is_valid_snapshot (some t) =
    not (is_empty t.template_version_id)
    && leb 1 t.template_version_number
    && within 160 t.title
    && is_locale t.locale
    && is_run_of is_hex_lower 64 t.content_digest
    && all is_valid_section t.sections

-- What the schema of `contract_versions` asks of the terms when a version is created.
unfoldable pub is_valid_terms : Terms → Bool
unfolding units is_day codes is_valid_snapshot
is_valid_terms t =
    within 200 t.title
    && within 100 t.plan
    && optional_within 100 t.quote_id
    && leb 1 t.annual_value
    && is_day (codes t.effective_date)
    && not (is_empty t.customer_name)
    && not (is_empty t.customer_contact_name)
    && not (is_empty t.customer_email)
    && is_valid_snapshot t.approved_template_snapshot
