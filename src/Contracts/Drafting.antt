-- ===== src/Contracts/Drafting.antt =====
-- createDraft, revise and submitForReview of mongo-contract-aggregate.repository.ts.
use alsm_web_be.Base.{
  ℕ, String, Bool, true, false, not, ◌&&◌, ◌||◌, Option, none, some, Table, lookup, insert,
  find_first, any_entry, ◌==◌, str_eq, is_empty, exists_value, if◌then◌else◌,
}
use alsm_web_be.Contracts.Types.{
  LifecycleStatus, ReviewStatus, VersionReviewStatus, ProviderCompletionStatus, ArchiveStatus,
  ActivationStatus, CustomerDecision, Terms, Version, Contract,
}
use alsm_web_be.Contracts.Store.{
  Store, WithVersion, Outcome, done, raise, contract_version_missing, idempotency_key_reused,
  duplicate_key, validation_failed, is_valid_terms,
}

pub record CreateDraft : Type 0 where
  pub lead_id : ℕ
  pub organization_id : ℕ
  pub created_by_user_id : ℕ
  pub request_id : String
  pub contract_id : ℕ
  pub version_id : ℕ
  pub contract_number : String
  pub request_fingerprint : String
  pub terms : Terms
  pub customer_user_id : Option ℕ

pub record Replayed : Type 0 where
  pub result : WithVersion
  pub replayed : Bool

unfoldable pub draft_version : CreateDraft → Version
draft_version i = record {
  contract_id = i.contract_id;
  version_number = 1;
  review_status = VersionReviewStatus.draft;
  terms = i.terms;
  created_by_user_id = i.created_by_user_id;
  revision_request_id = none;
  revision_request_fingerprint = none;
  submitted_at = none;
  approved_at = none;
  approved_by_user_id = none;
  returned_at = none;
  return_reason = none;
  canonical_document = none;
  review_document = none;
}

unfoldable pub draft_contract : CreateDraft → Contract
draft_contract i = record {
  lead_id = i.lead_id;
  organization_id = i.organization_id;
  contract_number = i.contract_number;
  current_version_id = i.version_id;
  lifecycle_status = LifecycleStatus.draft;
  review_status = ReviewStatus.not_submitted;
  provider_completion_status = ProviderCompletionStatus.not_started;
  archive_status = ArchiveStatus.not_started;
  final_evidence = none;
  demo_signing_session = none;
  provider_signing_session = none;
  activation_status = ActivationStatus.not_eligible;
  customer_user_id = i.customer_user_id;
  created_by_user_id = i.created_by_user_id;
  submitted_by_user_id = none;
  reviewed_by_user_id = none;
  reviewed_at = none;
  review_reason = none;
  customer_decision = CustomerDecision.no_decision;
  customer_decision_by_user_id = none;
  customer_decision_at = none;
  customer_decision_reason = none;
  create_request_id = i.request_id;
  create_request_fingerprint = i.request_fingerprint;
  revision = 1;
  completed_at = none;
}

-- The unique indexes of the two collections: `_id`, (contractId, versionNumber), contractNumber.
-- The index on (leadId, createdByUserId, createRequestId) is met: the query found no such contract.
unfoldable pub version_key_taken : ℕ → ℕ → ℕ → Table Version → Bool
version_key_taken version_id contract_id number versions =
    exists_value (lookup version_id versions)
    || any_entry (λ k v. v.contract_id == contract_id && v.version_number == number) versions

unfoldable pub contract_key_taken : ℕ → String → Table Contract → Bool
contract_key_taken contract_id number contracts =
    exists_value (lookup contract_id contracts)
    || any_entry (λ k c. str_eq c.contract_number number) contracts

unfoldable pub is_same_create : CreateDraft → ℕ → Contract → Bool
is_same_create i k c =
    c.lead_id == i.lead_id
    && c.created_by_user_id == i.created_by_user_id
    && str_eq c.create_request_id i.request_id

-- `required: true` on the strings of a contract.
abbrev pub has_contract_strings : CreateDraft → Bool
has_contract_strings i =
    not (is_empty i.contract_number)
    && not (is_empty i.request_id)
    && not (is_empty i.request_fingerprint)

unfoldable pub insert_draft : CreateDraft → Store → Outcome Replayed
unfolding draft_version draft_contract
insert_draft i s =
    if not (is_valid_terms i.terms)
    then raise validation_failed
    else if version_key_taken i.version_id i.contract_id 1 s.versions
    then raise duplicate_key
    else if not (has_contract_strings i)
    then raise validation_failed
    else if contract_key_taken i.contract_id i.contract_number s.contracts
    then raise duplicate_key
    else done
        (some (record {
          result = record {
            id = i.contract_id;
            contract = draft_contract i;
            version_id = i.version_id;
            version = draft_version i;
          };
          replayed = false;
        }))
        (record s {
          contracts = insert i.contract_id (draft_contract i) s.contracts;
          versions = insert i.version_id (draft_version i) s.versions;
        })

unfoldable pub replay_draft : CreateDraft → ℕ → Contract → Store → Outcome Replayed
replay_draft i id c s = elim (lookup c.current_version_id s.versions) [
  | none ↦ raise contract_version_missing
  | some v ↦
      if str_eq c.create_request_fingerprint i.request_fingerprint
      then done
          (some (record {
            result = record {
              id = id;
              contract = c;
              version_id = c.current_version_id;
              version = v;
            };
            replayed = true;
          }))
          s
      else raise idempotency_key_reused
]

unfoldable pub create_draft : CreateDraft → Store → Outcome Replayed
create_draft i s = elim (find_first (is_same_create i) s.contracts) [
  | none ↦ insert_draft i s
  | some (id, c) ↦ replay_draft i id c s
]
