-- ===== src/Contracts/Tests.antt =====
-- The theorems on the contracts at concrete stores.
use Prim.Native.String.{String}
use alsm_web_be.Base.{
  Bool, true, false, ◌≡◌, refl, none, some, List, [], ◌∷◌, lookup, insert, find_one, find_first,
  any_entry, trim, is_hex, is_hex_lower, is_run_of, units,
}
use alsm_web_be.Contracts.Types.{
  LifecycleStatus, same_lifecycle, ReviewStatus, VersionReviewStatus, ProviderCompletionStatus,
  ArchiveStatus, ReviewAction, DocumentKind, DocumentArtifact, EvidenceKind, MimeType,
  EvidenceArtifact, ManifestBody, Manifest, ProviderSessionStatus, Terms, Version, Contract,
}
use alsm_web_be.Contracts.Store.{
  Store, Grant, WithVersion, done, is_approved, is_version_approved, load_current, is_day, codes,
  is_valid_snapshot, is_valid_terms,
}
use alsm_web_be.Contracts.Drafting.{
  CreateDraft, Replayed, draft_version, draft_contract, version_key_taken, contract_key_taken,
  is_same_create, insert_draft, create_draft,
}
use alsm_web_be.Contracts.Revising.{
  SubmitForReview, is_submittable, submitted_contract, submitted_version, is_version_open,
  submit_for_review,
}
use alsm_web_be.Contracts.Review.{
  Review, is_pending, is_version_in_review, is_under_review, reviewed_contract, reviewed_version,
  write_review, review,
}
use alsm_web_be.Contracts.Evidence.{
  is_valid_artifact, is_valid_body, is_canonical, has_canonical_sha256, AttachEvidence,
  awaits_evidence, completed_contract, write_evidence, is_evidenced_version,
  attach_verified_final_evidence,
}
use alsm_web_be.Contracts.Activation.{
  is_activation_candidate, matches_evidence, latest_candidate, find_activation_eligible,
  IsActivatable, find_activation_eligible-IsActivatable,
}
use alsm_web_be.Contracts.Envelopes.{
  has_envelope, webhook_update, EventType, event_lifecycle, update_provider_signing_status,
}
use alsm_web_be.Contracts.Invariant.{IsConsistent}
use alsm_web_be.Contracts.Steps.{Keeps}
use alsm_web_be.Contracts.Trace.{
  Call, apply, settle, run, initial, initial-IsConsistent, run-IsConsistent, run-Keeps,
}
use alsm_web_be.Contracts.Types.{TemplateSnapshot}
use alsm_web_be.Contracts.Store.{has_active_grant, is_reviewed, load_current}
use alsm_web_be.Contracts.Viewing.{is_customer_visible, same_email, find_for_granted_customer}
use alsm_web_be.Contracts.Access.{IsShown, find_for_granted_customer-run}
use alsm_web_be.Contracts.FourEyes.{
  IsUnderReview, IsReviewOf, IsWritten, review-IsReviewOf, review_of_own,
}
use alsm_web_be.Contracts.Freshness.{IsStale, submit_for_review-IsStale}
use alsm_web_be.Contracts.Idempotence.{create_draft-again}
use alsm_web_be.Contracts.Archiving.{attach_verified_final_evidence-again}
use alsm_web_be.Contracts.Reopening.{webhook_reopens}

abbrev terms : Terms
terms = record {
  title = "Service agreement";
  plan = "PRO";
  quote_id = none;
  annual_value = 1200;
  effective_date = "2026-01-31";
  customer_name = "Acme";
  customer_contact_name = "Ann";
  customer_email = "ann@acme.test";
  approved_template_version_id = some "template-1";
  approved_template_snapshot = none;
}

abbrev draft : CreateDraft
draft = record {
  lead_id = 1;
  organization_id = 2;
  created_by_user_id = 3;
  request_id = "request-1";
  contract_id = 10;
  version_id = 20;
  contract_number = "C-10";
  request_fingerprint = "fingerprint";
  terms = terms;
  customer_user_id = some 7;
}

abbrev submission : SubmitForReview
submission = record {
  contract_id = 10;
  lead_id = 1;
  organization_id = 2;
  actor_user_id = 3;
  now = 100;
}

abbrev approval : Review
approval = record {
  contract_id = 10;
  lead_id = 1;
  organization_id = 2;
  actor_user_id = 4;
  action = ReviewAction.approve;
  reason = none;
  now = 200;
}

-- The digest is a parameter of the model; here it is a field of what it reads.
abbrev digest : ManifestBody → String
digest m = m.canonical_document_sha256

abbrev lower_case : String → String
lower_case s = s

abbrev empty : Store
empty = record { contracts = []; versions = []; grants = [] }

abbrev calls : List Call
calls = Call.create_draft draft ∷ Call.submit_for_review submission ∷ Call.review approval ∷ []

run-IsConsistent_example : IsConsistent digest (run lower_case digest calls (initial []))
run-IsConsistent_example =
    run-IsConsistent lower_case digest calls (initial []) (initial-IsConsistent digest [])

abbrev more_calls : List Call
more_calls = Call.create_draft (record draft { contract_id = 11; request_id = "request-2" }) ∷ []

run-Keeps_example :
    Keeps
      (run lower_case digest calls (initial []))
      (run lower_case digest more_calls (run lower_case digest calls (initial [])))
run-Keeps_example =
    run-Keeps lower_case digest more_calls (run lower_case digest calls (initial []))
      (run-IsConsistent lower_case digest calls (initial []) (initial-IsConsistent digest []))

abbrev drafted_store : Store
drafted_store = record {
  contracts = (10, draft_contract draft) ∷ [];
  versions = (20, draft_version draft) ∷ [];
  grants = [];
}

abbrev created : Bool → Replayed
created again = record {
  result = record {
    id = 10;
    contract = draft_contract draft;
    version_id = 20;
    version = draft_version draft;
  };
  replayed = again;
}

create_draft-again_example :
    create_draft (record draft { contract_id = 11; version_id = 21 }) drafted_store
    ≡ done (some (created true)) drafted_store
unfolding create_draft find_first insert_draft is_valid_terms units is_day codes is_valid_snapshot
    version_key_taken contract_key_taken lookup any_entry insert is_same_create
create_draft-again_example =
    create_draft-again draft (record draft { contract_id = 11; version_id = 21 }) empty
      (created false) drafted_store refl refl (refl, refl, refl)

abbrev reviewable : Contract
reviewable = record (draft_contract draft) {
  lifecycle_status = LifecycleStatus.internal_review;
  review_status = ReviewStatus.pending;
}

abbrev reviewable_version : Version
reviewable_version = record (draft_version draft) {
  review_status = VersionReviewStatus.internal_review;
}

abbrev reviewable_store : Store
reviewable_store = record {
  contracts = (10, reviewable) ∷ [];
  versions = (20, reviewable_version) ∷ [];
  grants = [];
}

abbrev approved : WithVersion
approved = record {
  id = 10;
  contract = reviewed_contract approval reviewable;
  version_id = 20;
  version = reviewed_version approval reviewable_version;
}

abbrev approved_store : Store
approved_store = record {
  contracts = (10, reviewed_contract approval reviewable) ∷ [];
  versions = (20, reviewed_version approval reviewable_version) ∷ [];
  grants = [];
}

review-IsReviewOf_example :
    (c : Contract) × (v : Version) × IsUnderReview approval reviewable_store c v
    × IsReviewOf approval c v approved
    × IsWritten reviewable_store approved 10 c.current_version_id approved_store
unfolding review write_review find_one lookup insert is_under_review is_pending is_version_in_review
    same_lifecycle draft_contract draft_version
review-IsReviewOf_example = review-IsReviewOf approval reviewable_store approved approved_store refl

review_of_own_example :
    review (record approval { actor_user_id = 3 }) reviewable_store ≡ done none reviewable_store
unfolding lookup draft_contract
review_of_own_example =
    review_of_own (record approval { actor_user_id = 3 }) reviewable_store reviewable refl refl

abbrev submitted : WithVersion
submitted = record {
  id = 10;
  contract = submitted_contract submission (draft_contract draft);
  version_id = 20;
  version = draft_version draft;
}

abbrev submitted_store : Store
submitted_store = record {
  contracts = (10, submitted_contract submission (draft_contract draft)) ∷ [];
  versions = (20, submitted_version 100 (draft_version draft)) ∷ [];
  grants = [];
}

submit_for_review-IsStale_example : IsStale submission submitted submitted_store
unfolding submit_for_review load_current find_one lookup insert is_submittable is_version_open
    same_lifecycle draft_contract draft_version submitted_contract
submit_for_review-IsStale_example =
    submit_for_review-IsStale submission drafted_store submitted submitted_store refl

abbrev sha : String
sha = "0123456789abcdef0123456789abcdef0123456789abcdef0123456789abcdef"

abbrev signed_artifact : EvidenceArtifact
signed_artifact = record {
  kind = EvidenceKind.signed_pdf;
  storage_reference = "storage/1";
  file_name = "contract.pdf";
  mime_type = MimeType.application_pdf;
  sha256 = sha;
  byte_length = 1000;
  encryption = "AES-256-GCM";
  encryption_key_version = "key-1";
  archived_at = some 500;
}

abbrev manifest : Manifest
manifest = record {
  body = record {
    contract_version_id = 20;
    canonical_document_sha256 = sha;
    provider_key = "PROVIDER";
    provider_envelope_reference = "envelope-1";
    provider_completion_event_reference = "event-1";
    provider_completed_at = some 400;
    archived_at = some 500;
    signed_pdf = signed_artifact;
    supporting_artifacts = [];
  };
  manifest_sha256 = sha;
}

abbrev canonical : DocumentArtifact
canonical = record {
  kind = DocumentKind.canonical_unsigned;
  storage_reference = "storage/0";
  file_name = "contract.pdf";
  sha256 = sha;
  byte_length = 900;
  encryption = "AES-256-GCM";
  encryption_key_version = "key-1";
  renderer_version = "renderer-1";
  generated_at = 300;
}

abbrev signed_contract : Contract
signed_contract = record (draft_contract draft) {
  lifecycle_status = LifecycleStatus.provider_completed_evidence_pending;
  review_status = ReviewStatus.approved;
  reviewed_by_user_id = some 4;
  provider_completion_status = ProviderCompletionStatus.confirmed;
  archive_status = ArchiveStatus.pending;
  provider_signing_session = some (record {
    provider_key = "PROVIDER";
    provider_envelope_reference = "envelope-1";
    contract_version_id = 20;
    canonical_document_sha256 = sha;
    status = ProviderSessionStatus.completed;
    started_at = 300;
    expires_at = 900;
    completed_at = some 400;
    completion_event_reference = some "event-1";
    last_event_at = some 400;
  });
}

abbrev signed_version : Version
signed_version = record (draft_version draft) {
  review_status = VersionReviewStatus.approved;
  canonical_document = some canonical;
}

abbrev signed_store : Store
signed_store = record {
  contracts = (10, signed_contract) ∷ [];
  versions = (20, signed_version) ∷ [];
  grants = [];
}

abbrev evidence : AttachEvidence
evidence = record {
  contract_id = 10;
  lead_id = 1;
  organization_id = 2;
  version_id = 20;
  manifest = manifest;
  now = 600;
}

abbrev completed : WithVersion
completed = record {
  id = 10;
  contract = completed_contract evidence signed_contract;
  version_id = 20;
  version = signed_version;
}

abbrev completed_store : Store
completed_store = record {
  contracts = (10, completed_contract evidence signed_contract) ∷ [];
  versions = (20, signed_version) ∷ [];
  grants = [];
}

attach_verified_final_evidence-again_example :
    attach_verified_final_evidence digest evidence completed_store
    ≡ done (some (record { result = completed; replayed = true })) completed_store
unfolding attach_verified_final_evidence write_evidence awaits_evidence is_evidenced_version
    is_valid_body is_valid_artifact has_canonical_sha256 is_canonical is_approved
    is_version_approved find_one lookup insert trim is_hex is_run_of same_lifecycle draft_contract
    draft_version
attach_verified_final_evidence-again_example =
    attach_verified_final_evidence-again digest evidence signed_store
      (record { result = completed; replayed = false }) completed_store refl refl

find_activation_eligible-IsActivatable_example :
    IsActivatable 1 completed_store.versions completed_store.contracts completed
unfolding find_activation_eligible latest_candidate is_activation_candidate matches_evidence
    has_canonical_sha256 is_canonical load_current find_one lookup completed_contract same_lifecycle
    draft_contract draft_version
find_activation_eligible-IsActivatable_example =
    find_activation_eligible-IsActivatable 1 completed_store.versions completed_store.contracts
      completed refl

webhook_reopens_example :
    (d : Contract) × (t : Store) × (update_provider_signing_status completed_store.versions
        (webhook_update 10 "envelope-1" EventType.signer_viewed "event-2" 700)
        completed_store
      ≡ done (load_current completed_store.versions 10 d) t)
    × (lookup 10 t.contracts ≡ some d)
    × (d.lifecycle_status ≡ event_lifecycle EventType.signer_viewed)
    × (d.revision ≡ 3)
    × (is_activation_candidate 1 d ≡ false)
unfolding lookup has_envelope draft_contract completed_contract
webhook_reopens_example =
    webhook_reopens 1 10 "envelope-1" EventType.signer_viewed "event-2" 700 completed_store
      (completed_contract evidence signed_contract) refl refl

abbrev snapshot : TemplateSnapshot
snapshot = record {
  template_version_id = "template-1";
  template_version_number = 1;
  title = "Template";
  locale = "vi";
  content_digest = sha;
  sections = ("Scope", "The service.") ∷ [];
}

abbrev shown_draft : CreateDraft
shown_draft = record draft { terms = record terms { approved_template_snapshot = some snapshot } }

abbrev shown_calls : List Call
shown_calls =
    Call.create_draft shown_draft ∷ Call.submit_for_review submission ∷ Call.review approval ∷ []

abbrev shown : WithVersion
shown = record {
  id = 10;
  contract =
      reviewed_contract approval (submitted_contract submission (draft_contract shown_draft));
  version_id = 20;
  version = reviewed_version approval (submitted_version 100 (draft_version shown_draft));
}

abbrev grants : List Grant
grants = record { lead_id = 1; user_id = 7 } ∷ []

find_for_granted_customer-run_example :
    IsShown lower_case 10 7 " ann@acme.test "
      (run lower_case digest shown_calls (initial grants))
      shown
unfolding find_for_granted_customer has_active_grant is_customer_visible is_reviewed load_current
    same_email trim find_one lookup insert same_lifecycle draft_contract draft_version run apply
    settle initial create_draft find_first insert_draft is_valid_terms units is_day codes
    is_valid_snapshot is_hex_lower is_run_of version_key_taken contract_key_taken any_entry
    is_same_create submit_for_review is_submittable is_version_open submitted_contract
    submitted_version review write_review is_under_review is_pending is_version_in_review
    reviewed_contract reviewed_version
find_for_granted_customer-run_example =
    find_for_granted_customer-run lower_case digest shown_calls (initial grants) 10 7
      " ann@acme.test " shown (initial-IsConsistent digest grants) refl
