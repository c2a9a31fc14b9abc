-- ===== src/Contracts/Revising.antt =====
-- revise and submitForReview of mongo-contract-aggregate.repository.ts.
use alsm_web_be.Base.{
  ℕ, ◌+◌, String, Bool, true, false, not, ◌&&◌, Option, none, some, [], ◌∷◌, Table, lookup, insert,
  find_one, find_first, max, leb, ◌==◌, is_some_text, if◌then◌else◌,
}
use mathlib.Core.List.{foldl}
use alsm_web_be.Contracts.Types.{
  LifecycleStatus, same_lifecycle, ReviewStatus, VersionReviewStatus, CustomerDecision, Terms,
  Version, Contract,
}
use alsm_web_be.Contracts.Store.{
  Store, WithVersion, Outcome, done, raise, idempotency_key_reused, contract_version_state_conflict,
  duplicate_key, validation_failed, lifecycle_in, load_current, is_valid_terms,
}
use alsm_web_be.Contracts.Drafting.{Replayed, version_key_taken}

pub record Revise : Type 0 where
  pub contract_id : ℕ
  pub lead_id : ℕ
  pub organization_id : ℕ
  pub actor_user_id : ℕ
  pub request_id : String
  pub request_fingerprint : String
  pub version_id : ℕ
  pub terms : Terms
  pub customer_user_id : Option ℕ

unfoldable pub is_changes_requested : ReviewStatus → Bool
is_changes_requested ReviewStatus.changes_requested = true
is_changes_requested _ = false

-- The version that an earlier call with the same key made.
unfoldable pub is_same_revision : Revise → ℕ → Version → Bool
is_same_revision i k v =
    v.contract_id == i.contract_id
    && v.created_by_user_id == i.actor_user_id
    && is_some_text v.revision_request_id i.request_id

-- `findOne({ contractId }).sort({ versionNumber: -1 })`: only the number is used.
abbrev later_number : ℕ → Option ℕ → ℕ × Version → Option ℕ
later_number contract_id none (k, v) =
    if v.contract_id == contract_id then some v.version_number else none
later_number contract_id (some n) (k, v) =
    if v.contract_id == contract_id then some (max n v.version_number) else some n

unfoldable pub latest_number : ℕ → Table Version → Option ℕ
latest_number contract_id versions = foldl (later_number contract_id) none versions

unfoldable pub is_revisable : Revise → Contract → Bool
unfolding same_lifecycle is_changes_requested
is_revisable i c =
    c.lead_id == i.lead_id
    && c.organization_id == i.organization_id
    && same_lifecycle c.lifecycle_status LifecycleStatus.changes_requested
    && is_changes_requested c.review_status

unfoldable pub revised_version : Revise → ℕ → Version
revised_version i latest = record {
  contract_id = i.contract_id;
  version_number = latest + 1;
  review_status = VersionReviewStatus.draft;
  terms = i.terms;
  created_by_user_id = i.actor_user_id;
  revision_request_id = some i.request_id;
  revision_request_fingerprint = some i.request_fingerprint;
  submitted_at = none;
  approved_at = none;
  approved_by_user_id = none;
  returned_at = none;
  return_reason = none;
  canonical_document = none;
  review_document = none;
}

-- A given customer replaces the stored one.
abbrev customer_after : Option ℕ → Option ℕ → Option ℕ
customer_after none old = old
customer_after (some u) old = some u

unfoldable pub revised_contract : Revise → Contract → Contract
revised_contract i c = record c {
  current_version_id = i.version_id;
  lifecycle_status = LifecycleStatus.draft;
  review_status = ReviewStatus.not_submitted;
  customer_decision = CustomerDecision.no_decision;
  customer_user_id = customer_after i.customer_user_id c.customer_user_id;
  submitted_by_user_id = none;
  reviewed_by_user_id = none;
  reviewed_at = none;
  review_reason = none;
  customer_decision_by_user_id = none;
  customer_decision_at = none;
  customer_decision_reason = none;
  revision = c.revision + 1;
}

-- The contract that is updated is the one just read: the transaction sees no write of another,
-- so the second query, on its version, statuses and revision, finds it.
unfoldable pub write_revision : Revise → Contract → ℕ → Store → Outcome Replayed
unfolding revised_version revised_contract
write_revision i c latest s =
    if not (is_valid_terms i.terms)
    then raise validation_failed
    else if version_key_taken i.version_id i.contract_id (latest + 1) s.versions
    then raise duplicate_key
    else done
        (some (record {
          result = record {
            id = i.contract_id;
            contract = revised_contract i c;
            version_id = i.version_id;
            version = revised_version i latest;
          };
          replayed = false;
        }))
        (record s {
          contracts = insert i.contract_id (revised_contract i c) s.contracts;
          versions = insert i.version_id (revised_version i latest) s.versions;
        })

abbrev pub is_own : Revise → Contract → Bool
is_own i c = c.lead_id == i.lead_id && c.organization_id == i.organization_id

unfoldable pub replay_revision : Revise → Version → Store → Outcome Replayed
replay_revision i v s =
    if is_some_text v.revision_request_fingerprint i.request_fingerprint
    then elim (find_one i.contract_id (is_own i) s.contracts) [
      | none ↦ done none s
      | some c ↦ elim (lookup c.current_version_id s.versions) [
        | none ↦ done none s
        | some w ↦
            done
              (some (record {
                result = record {
                  id = i.contract_id;
                  contract = c;
                  version_id = c.current_version_id;
                  version = w;
                };
                replayed = true;
              }))
              s
      ]
    ]
    else raise idempotency_key_reused

unfoldable pub revise : Revise → Store → Outcome Replayed
revise i s = elim (find_first (is_same_revision i) s.versions) [
  | some (k, v) ↦ replay_revision i v s
  | none ↦ elim (find_one i.contract_id (is_revisable i) s.contracts) [
    | none ↦ done none s
    | some c ↦ elim (latest_number i.contract_id s.versions) [
      | none ↦ done none s
      | some latest ↦ write_revision i c latest s
    ]
  ]
]

pub record SubmitForReview : Type 0 where
  pub contract_id : ℕ
  pub lead_id : ℕ
  pub organization_id : ℕ
  pub actor_user_id : ℕ
  pub now : ℕ

unfoldable pub is_submittable : SubmitForReview → Contract → Bool
unfolding same_lifecycle
is_submittable i c =
    c.lead_id == i.lead_id
    && c.organization_id == i.organization_id
    && lifecycle_in c.lifecycle_status
        (LifecycleStatus.draft ∷ LifecycleStatus.changes_requested ∷ [])
    && leb 1 c.revision

unfoldable pub submitted_contract : SubmitForReview → Contract → Contract
submitted_contract i c = record c {
  lifecycle_status = LifecycleStatus.internal_review;
  review_status = ReviewStatus.pending;
  submitted_by_user_id = some i.actor_user_id;
  revision = c.revision + 1;
}

unfoldable pub submitted_version : ℕ → Version → Version
submitted_version now v = record v {
  review_status = VersionReviewStatus.internal_review;
  submitted_at = some now;
}

unfoldable pub is_version_open : VersionReviewStatus → Bool
is_version_open VersionReviewStatus.draft = true
is_version_open VersionReviewStatus.changes_requested = true
is_version_open _ = false

abbrev pub is_submitted_version : SubmitForReview → Version → Bool
is_submitted_version i v = v.contract_id == i.contract_id && is_version_open v.review_status

-- `committed` is the collection of versions outside the transaction, which `loadCurrent` reads.
unfoldable pub submit_for_review : Table Version → SubmitForReview → Store → Outcome WithVersion
unfolding submitted_contract submitted_version
submit_for_review committed i s = elim (find_one i.contract_id (is_submittable i) s.contracts) [
  | none ↦ done none s
  | some c ↦ elim (find_one c.current_version_id (is_submitted_version i) s.versions) [
    | none ↦ raise contract_version_state_conflict
    | some v ↦ done (load_current committed i.contract_id (submitted_contract i c)) (record s {
      contracts = insert i.contract_id (submitted_contract i c) s.contracts;
      versions = insert c.current_version_id (submitted_version i.now v) s.versions;
    })
  ]
]
