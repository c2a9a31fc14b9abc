-- ===== src/Contracts/Review.antt =====
-- review, respondByCustomer and markCustomerViewed of mongo-contract-aggregate.repository.ts.
use alsm_web_be.Base.{
  ℕ, ◌+◌, String, Bool, true, false, not, ◌&&◌, Option, none, some, [], ◌∷◌, insert, find_one, ◌==◌,
  is_some_of, is_truthy, is_truthy_trimmed, trim, if◌then◌else◌,
}
use mathlib.Core.Option
use alsm_web_be.Contracts.Types.{
  LifecycleStatus, same_lifecycle, ReviewStatus, VersionReviewStatus, CustomerDecision,
  ReviewAction, CustomerAction, approve, return, reject, request_changes, decline, Version,
  Contract,
}
use alsm_web_be.Contracts.Store.{
  Store, WithVersion, Outcome, done, raise, contract_version_state_conflict,
  approved_legal_template_required, review_reason_required, lifecycle_in, is_approved,
  is_version_approved, has_active_grant,
}

pub record Review : Type 0 where
  pub contract_id : ℕ
  pub lead_id : ℕ
  pub organization_id : ℕ
  pub actor_user_id : ℕ
  pub action : ReviewAction
  pub reason : Option String
  pub now : ℕ

unfoldable pub is_pending : ReviewStatus → Bool
is_pending ReviewStatus.pending = true
is_pending _ = false

unfoldable pub is_version_in_review : VersionReviewStatus → Bool
is_version_in_review VersionReviewStatus.internal_review = true
is_version_in_review _ = false

unfoldable pub is_under_review : Review → Contract → Bool
unfolding same_lifecycle is_pending
is_under_review i c =
    c.lead_id == i.lead_id
    && c.organization_id == i.organization_id
    && same_lifecycle c.lifecycle_status LifecycleStatus.internal_review
    && is_pending c.review_status

abbrev pub reviewed_lifecycle : ReviewAction → LifecycleStatus
reviewed_lifecycle approve = LifecycleStatus.sent_to_customer
reviewed_lifecycle return = LifecycleStatus.changes_requested
reviewed_lifecycle reject = LifecycleStatus.rejected

abbrev pub review_result : ReviewAction → ReviewStatus
review_result approve = ReviewStatus.approved
review_result return = ReviewStatus.changes_requested
review_result reject = ReviewStatus.rejected

abbrev pub version_result : ReviewAction → VersionReviewStatus
version_result approve = VersionReviewStatus.approved
version_result return = VersionReviewStatus.changes_requested
version_result reject = VersionReviewStatus.rejected

-- A given reason replaces the stored one; `$set` leaves out a field that is undefined.
unfoldable pub reason_after : Option String → Option String → Option String
unfolding trim
reason_after none old = old
reason_after (some r) old = some (trim r)

unfoldable pub reviewed_contract : Review → Contract → Contract
unfolding reason_after
reviewed_contract i c = record c {
  lifecycle_status = reviewed_lifecycle i.action;
  review_status = review_result i.action;
  reviewed_by_user_id = some i.actor_user_id;
  reviewed_at = some i.now;
  review_reason = reason_after i.reason c.review_reason;
  revision = c.revision + 1;
}

abbrev pub with_approval : ReviewAction → Review → Version → Version
with_approval approve i v = record v {
  approved_by_user_id = some i.actor_user_id;
  approved_at = some i.now;
}
with_approval _ i v = record v {
  returned_at = some i.now;
  return_reason = Option.map trim i.reason;
}

unfoldable pub reviewed_version : Review → Version → Version
unfolding trim
reviewed_version i v = record (with_approval i.action i v) {
  review_status = version_result i.action;
}

abbrev pub is_approve : ReviewAction → Bool
is_approve approve = true
is_approve _ = false

unfoldable pub write_review : Review → Contract → Version → Store → Outcome WithVersion
unfolding reviewed_contract reviewed_version
write_review i c v s =
    if is_approve i.action && not (is_truthy v.terms.approved_template_version_id)
    then raise approved_legal_template_required
    else if not (is_approve i.action) && not (is_truthy_trimmed i.reason)
    then raise review_reason_required
    else if not (is_version_in_review v.review_status)
    then raise contract_version_state_conflict
    else done
        (some (record {
          id = i.contract_id;
          contract = reviewed_contract i c;
          version_id = c.current_version_id;
          version = reviewed_version i v;
        }))
        (record s {
          contracts = insert i.contract_id (reviewed_contract i c) s.contracts;
          versions = insert c.current_version_id (reviewed_version i v) s.versions;
        })

unfoldable pub review : Review → Store → Outcome WithVersion
review i s = elim (find_one i.contract_id (is_under_review i) s.contracts) [
  | none ↦ done none s
  | some c ↦
      if c.created_by_user_id == i.actor_user_id
      then done none s
      else elim (find_one c.current_version_id (λ v. v.contract_id == i.contract_id) s.versions) [
        | none ↦ done none s
        | some v ↦ write_review i c v s
      ]
]

pub record Respond : Type 0 where
  pub contract_id : ℕ
  pub customer_user_id : ℕ
  pub action : CustomerAction
  pub reason : String
  pub now : ℕ

unfoldable pub is_answerable : Respond → Contract → Bool
unfolding same_lifecycle is_approved
is_answerable i c =
    is_some_of c.customer_user_id i.customer_user_id
    && lifecycle_in c.lifecycle_status (
        LifecycleStatus.ready_for_signature ∷ LifecycleStatus.sent_to_customer
        ∷ LifecycleStatus.customer_viewed ∷ LifecycleStatus.customer_signing_in_progress ∷ [])
    && is_approved c.review_status

abbrev answered_lifecycle : CustomerAction → LifecycleStatus
answered_lifecycle request_changes = LifecycleStatus.changes_requested
answered_lifecycle decline = LifecycleStatus.rejected

abbrev pub answered_review : CustomerAction → ReviewStatus
answered_review request_changes = ReviewStatus.changes_requested
answered_review decline = ReviewStatus.rejected

abbrev pub answered_version_review : CustomerAction → VersionReviewStatus
answered_version_review request_changes = VersionReviewStatus.changes_requested
answered_version_review decline = VersionReviewStatus.rejected

abbrev pub answered_decision : CustomerAction → CustomerDecision
answered_decision request_changes = CustomerDecision.changes_requested
answered_decision decline = CustomerDecision.declined

unfoldable pub answered_contract : Respond → Contract → Contract
unfolding trim
answered_contract i c = record c {
  lifecycle_status = answered_lifecycle i.action;
  review_status = answered_review i.action;
  customer_decision = answered_decision i.action;
  customer_decision_by_user_id = some i.customer_user_id;
  customer_decision_at = some i.now;
  customer_decision_reason = some (trim i.reason);
  revision = c.revision + 1;
}

unfoldable pub answered_version : Respond → Version → Version
unfolding trim
answered_version i v = record v {
  review_status = answered_version_review i.action;
  returned_at = some i.now;
  return_reason = some (trim i.reason);
}

abbrev pub is_own_approved : Respond → Version → Bool
is_own_approved i v = v.contract_id == i.contract_id && is_version_approved v.review_status

unfoldable pub respond_by_customer : Respond → Store → Outcome WithVersion
respond_by_customer i s = elim (find_one i.contract_id (is_answerable i) s.contracts) [
  | none ↦ done none s
  | some c ↦
      if not (has_active_grant c.lead_id i.customer_user_id s.grants)
      then done none s
      else elim (find_one c.current_version_id (is_own_approved i) s.versions) [
        | none ↦ done none s
        | some v ↦
            done
              (some (record {
                id = i.contract_id;
                contract = answered_contract i c;
                version_id = c.current_version_id;
                version = answered_version i v;
              }))
              (record s {
                contracts = insert i.contract_id (answered_contract i c) s.contracts;
                versions = insert c.current_version_id (answered_version i v) s.versions;
              })
      ]
]
