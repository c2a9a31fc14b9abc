-- ===== src/Contracts/Types.antt =====
-- The data of a contract: src/modules/crm/domain/contract-aggregate.types.ts and the stored
-- documents of src/modules/crm/infrastructure/contract-aggregate.schema.ts. ObjectIds are numbers,
-- dates are milliseconds since the epoch, and `currency` is the constant 'VND'. The time stamps
-- that mongoose keeps (createdAt, updatedAt) are left out: no operation here reads them.
use alsm_web_be.Base.{ℕ, String, Bool, Option, List, ◌==◌}

pub data LifecycleStatus : Type 0 where
  draft internal_review ready_for_signature alsm_signing_in_progress : LifecycleStatus
  alsm_partially_signed alsm_signed sent_to_customer customer_viewed : LifecycleStatus
  customer_signing_in_progress customer_partially_signed customer_signed : LifecycleStatus
  changes_requested rejected expired cancelled provider_error : LifecycleStatus
  provider_completed_evidence_pending provider_completed_evidence_failed : LifecycleStatus
  completed legacy_unverified : LifecycleStatus

-- A number for each status, so that two statuses can be compared.
unfoldable pub lifecycle_code : LifecycleStatus → ℕ
lifecycle_code draft = 0
lifecycle_code internal_review = 1
lifecycle_code ready_for_signature = 2
lifecycle_code alsm_signing_in_progress = 3
lifecycle_code alsm_partially_signed = 4
lifecycle_code alsm_signed = 5
lifecycle_code sent_to_customer = 6
lifecycle_code customer_viewed = 7
lifecycle_code customer_signing_in_progress = 8
lifecycle_code customer_partially_signed = 9
lifecycle_code customer_signed = 10
lifecycle_code changes_requested = 11
lifecycle_code rejected = 12
lifecycle_code expired = 13
lifecycle_code cancelled = 14
lifecycle_code provider_error = 15
lifecycle_code provider_completed_evidence_pending = 16
lifecycle_code provider_completed_evidence_failed = 17
lifecycle_code completed = 18
lifecycle_code legacy_unverified = 19

unfoldable pub same_lifecycle : LifecycleStatus → LifecycleStatus → Bool
unfolding lifecycle_code
same_lifecycle a b = lifecycle_code a == lifecycle_code b

pub data ActivationStatus : Type 0 where
  not_eligible eligible requested : ActivationStatus
  activation_completed failed_retryable reconciliation_required : ActivationStatus

pub data ReviewStatus : Type 0 where
  not_submitted pending approved changes_requested rejected : ReviewStatus

pub data VersionReviewStatus : Type 0 where
  draft internal_review approved changes_requested rejected : VersionReviewStatus

pub data ProviderCompletionStatus : Type 0 where
  not_started confirmed : ProviderCompletionStatus

pub data ArchiveStatus : Type 0 where
  not_started pending verified failed : ArchiveStatus

pub data CustomerDecision : Type 0 where
  no_decision changes_requested declined : CustomerDecision

pub data ReviewAction : Type 0 where
  approve return reject : ReviewAction

pub data CustomerAction : Type 0 where
  request_changes decline : CustomerAction

-- The text of an approved template, copied into a version.
pub record TemplateSnapshot : Type 0 where
  pub template_version_id : String
  pub template_version_number : ℕ
  pub title : String
  pub locale : String
  pub content_digest : String
  pub sections : List (String × String)

pub data DocumentKind : Type 0 where
  review_copy canonical_unsigned : DocumentKind

-- ContractReviewDocumentArtifact and ContractCanonicalDocumentArtifact, which differ in `kind`.
pub record DocumentArtifact : Type 0 where
  pub kind : DocumentKind
  pub storage_reference : String
  pub file_name : String
  pub sha256 : String
  pub byte_length : ℕ
  pub encryption : String
  pub encryption_key_version : String
  pub renderer_version : String
  pub generated_at : ℕ

pub data EvidenceKind : Type 0 where
  signed_pdf completion_certificate audit_trail : EvidenceKind

pub data MimeType : Type 0 where
  application_pdf application_json text_plain : MimeType

-- `archived_at` is `none` for a value that is no valid date.
pub record EvidenceArtifact : Type 0 where
  pub kind : EvidenceKind
  pub storage_reference : String
  pub file_name : String
  pub mime_type : MimeType
  pub sha256 : String
  pub byte_length : ℕ
  pub encryption : String
  pub encryption_key_version : String
  pub archived_at : Option ℕ

-- A manifest without its own digest: what the digest is computed from.
pub record ManifestBody : Type 0 where
  pub contract_version_id : ℕ
  pub canonical_document_sha256 : String
  pub provider_key : String
  pub provider_envelope_reference : String
  pub provider_completion_event_reference : String
  pub provider_completed_at : Option ℕ
  pub archived_at : Option ℕ
  pub signed_pdf : EvidenceArtifact
  pub supporting_artifacts : List EvidenceArtifact

pub record Manifest : Type 0 where
  pub body : ManifestBody
  pub manifest_sha256 : String

pub data DemoSessionStatus : Type 0 where
  sent completed : DemoSessionStatus

pub record DemoSigningSession : Type 0 where
  pub provider_envelope_reference : String
  pub contract_version_id : ℕ
  pub customer_user_id : ℕ
  pub canonical_document_sha256 : String
  pub status : DemoSessionStatus
  pub started_at : ℕ
  pub expires_at : ℕ
  pub completed_at : Option ℕ
  pub completion_event_reference : Option String

pub data ProviderSessionStatus : Type 0 where
  sent in_progress completed declined cancelled expired : ProviderSessionStatus

pub record ProviderSigningSession : Type 0 where
  pub provider_key : String
  pub provider_envelope_reference : String
  pub contract_version_id : ℕ
  pub canonical_document_sha256 : String
  pub status : ProviderSessionStatus
  pub started_at : ℕ
  pub expires_at : ℕ
  pub completed_at : Option ℕ
  pub completion_event_reference : Option String
  pub last_event_at : Option ℕ

-- What a caller fixes about a version: the terms of the contract.
pub record Terms : Type 0 where
  pub title : String
  pub plan : String
  pub quote_id : Option String
  pub annual_value : ℕ
  pub effective_date : String
  pub customer_name : String
  pub customer_contact_name : String
  pub customer_email : String
  pub approved_template_version_id : Option String
  pub approved_template_snapshot : Option TemplateSnapshot

-- A document of the collection `contract_versions`; its id is its key.
pub record Version : Type 0 where
  pub contract_id : ℕ
  pub version_number : ℕ
  pub review_status : VersionReviewStatus
  pub terms : Terms
  pub created_by_user_id : ℕ
  pub revision_request_id : Option String
  pub revision_request_fingerprint : Option String
  pub submitted_at : Option ℕ
  pub approved_at : Option ℕ
  pub approved_by_user_id : Option ℕ
  pub returned_at : Option ℕ
  pub return_reason : Option String
  pub canonical_document : Option DocumentArtifact
  pub review_document : Option DocumentArtifact

-- A document of the collection `contracts`; its id is its key.
pub record Contract : Type 0 where
  pub lead_id : ℕ
  pub organization_id : ℕ
  pub contract_number : String
  pub current_version_id : ℕ
  pub lifecycle_status : LifecycleStatus
  pub review_status : ReviewStatus
  pub provider_completion_status : ProviderCompletionStatus
  pub archive_status : ArchiveStatus
  pub final_evidence : Option Manifest
  pub demo_signing_session : Option DemoSigningSession
  pub provider_signing_session : Option ProviderSigningSession
  pub activation_status : ActivationStatus
  pub customer_user_id : Option ℕ
  pub created_by_user_id : ℕ
  pub submitted_by_user_id : Option ℕ
  pub reviewed_by_user_id : Option ℕ
  pub reviewed_at : Option ℕ
  pub review_reason : Option String
  pub customer_decision : CustomerDecision
  pub customer_decision_by_user_id : Option ℕ
  pub customer_decision_at : Option ℕ
  pub customer_decision_reason : Option String
  pub create_request_id : String
  pub create_request_fingerprint : String
  pub revision : ℕ
  pub completed_at : Option ℕ
