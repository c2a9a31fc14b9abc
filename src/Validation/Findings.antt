-- ===== src/Validation/Findings.antt =====
-- domain/validation-finding.types.ts, application/validation-finding-review.policy.ts, and findById
-- and reviewFinding of infrastructure/mongo-validation-finding.repository.ts. Of a finding, the
-- fields are kept that a review reads or writes.
use alsm_web_be.Base.{
  ℕ, Bool, ◌&&◌, Option, none, some, List, [], ◌∷◌, String, Table, any, ◌==◌, insert, find_one,
}

pub data FindingStatus : Type 0 where
  pending needs_correction manual_review not_applicable resolved : FindingStatus

abbrev finding_code : FindingStatus → ℕ
finding_code FindingStatus.pending = 0
finding_code FindingStatus.needs_correction = 1
finding_code FindingStatus.manual_review = 2
finding_code FindingStatus.not_applicable = 3
finding_code FindingStatus.resolved = 4

abbrev pub same_finding_status : FindingStatus → FindingStatus → Bool
same_finding_status a b = finding_code a == finding_code b

pub record Finding : Type 0 where
  pub organization_id : ℕ
  pub project_id : ℕ
  pub conversion_job_id : ℕ
  pub validation_run_id : ℕ
  pub status : FindingStatus
  pub reviewed_by : Option ℕ
  pub reviewed_at : Option ℕ
  pub review_note : Option String

abbrev pub Findings : Type 0
Findings = Table Finding

-- HUMAN_REVIEW_TARGET_STATUSES
abbrev pub human_review_target_statuses : List FindingStatus
human_review_target_statuses =
    FindingStatus.needs_correction ∷ FindingStatus.manual_review ∷ FindingStatus.not_applicable
    ∷ FindingStatus.resolved ∷ []

-- ALLOWED_TRANSITIONS
abbrev pub allowed_reviews : FindingStatus → List FindingStatus
allowed_reviews FindingStatus.pending =
    FindingStatus.needs_correction ∷ FindingStatus.manual_review ∷ FindingStatus.not_applicable
    ∷ FindingStatus.resolved ∷ []
allowed_reviews FindingStatus.needs_correction =
    FindingStatus.resolved ∷ FindingStatus.manual_review ∷ []
allowed_reviews FindingStatus.manual_review =
    FindingStatus.needs_correction ∷ FindingStatus.not_applicable ∷ FindingStatus.resolved ∷ []
allowed_reviews FindingStatus.not_applicable = FindingStatus.manual_review ∷ []
allowed_reviews FindingStatus.resolved = FindingStatus.manual_review ∷ []

unfoldable pub is_human_review_target_status : FindingStatus → Bool
is_human_review_target_status status =
    any (λ s. same_finding_status s status) human_review_target_statuses

unfoldable pub is_allowed_human_review_transition : FindingStatus → FindingStatus → Bool
is_allowed_human_review_transition current status =
    any (λ s. same_finding_status s status) (allowed_reviews current)

abbrev pub is_in_scope : ℕ → ℕ → ℕ → Finding → Bool
is_in_scope run project organization f =
    f.validation_run_id == run && f.project_id == project && f.organization_id == organization

unfoldable pub find_finding : ℕ → ℕ → ℕ → ℕ → Findings → Option Finding
unfolding find_one
find_finding id run project organization findings =
    find_one id (λ f. is_in_scope run project organization f) findings

pub record ReviewFinding : Type 0 where
  pub finding_id : ℕ
  pub validation_run_id : ℕ
  pub project_id : ℕ
  pub organization_id : ℕ
  pub expected_status : FindingStatus
  pub new_status : FindingStatus
  pub reviewed_by : ℕ
  pub reviewed_at : ℕ
  pub review_note : Option String

pub data ReviewOutcome : Type 0 where
  updated : Finding → ReviewOutcome
  conflict not_found : ReviewOutcome

-- `$set`, and `$unset` of the note when there is none.
unfoldable pub reviewed : ReviewFinding → Finding → Finding
reviewed r f = record f {
  status = r.new_status;
  reviewed_by = some r.reviewed_by;
  reviewed_at = some r.reviewed_at;
  review_note = r.review_note;
}

abbrev pub is_expected : ReviewFinding → Finding → Bool
is_expected r f =
    is_in_scope r.validation_run_id r.project_id r.organization_id f
    && same_finding_status f.status r.expected_status

unfoldable pub review_finding : ReviewFinding → Findings → ReviewOutcome × Findings
unfolding reviewed find_one find_finding
review_finding r findings = elim (find_one r.finding_id (λ f. is_expected r f) findings) [
  | some f ↦ (ReviewOutcome.updated (reviewed r f), insert r.finding_id (reviewed r f) findings)
  | none ↦
      elim (find_finding r.finding_id r.validation_run_id r.project_id r.organization_id findings) [
        | some f ↦ (ReviewOutcome.conflict, findings)
        | none ↦ (ReviewOutcome.not_found, findings)
      ]
]
