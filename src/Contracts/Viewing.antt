-- ===== src/Contracts/Viewing.antt =====
-- findForGrantedCustomer and markCustomerViewed of mongo-contract-aggregate.repository.ts. The
-- argument `lower_case` is `String.prototype.toLowerCase`, whose tables are those of Unicode.
use alsm_web_be.Base.{
  ℕ, ◌+◌, String, Bool, true, false, not, ◌&&◌, Option, none, some, [], ◌∷◌, Table, insert,
  find_one, exists_value, str_eq, is_some_of, is_truthy, trim, if◌then◌else◌,
}
use alsm_web_be.Contracts.Types.{LifecycleStatus, same_lifecycle, Version, Contract}
use alsm_web_be.Contracts.Store.{
  Store, WithVersion, Outcome, done, lifecycle_in, is_approved, is_reviewed, has_active_grant,
  load_current,
}

-- The statuses in which a customer may see a contract.
unfoldable pub is_customer_visible : Contract → Bool
unfolding same_lifecycle is_reviewed
is_customer_visible c =
    lifecycle_in c.lifecycle_status (
      LifecycleStatus.ready_for_signature ∷ LifecycleStatus.changes_requested
      ∷ LifecycleStatus.rejected ∷ LifecycleStatus.sent_to_customer
      ∷ LifecycleStatus.customer_viewed ∷ LifecycleStatus.customer_signing_in_progress
      ∷ LifecycleStatus.customer_partially_signed ∷ LifecycleStatus.customer_signed
      ∷ LifecycleStatus.provider_completed_evidence_pending
      ∷ LifecycleStatus.provider_completed_evidence_failed ∷ LifecycleStatus.completed ∷ [])
    && is_reviewed c.review_status

unfoldable pub same_email : (String → String) → String → String → Bool
unfolding trim
same_email lower_case a b = str_eq (lower_case (trim a)) (lower_case (trim b))

-- A contract is found only among the leads that the user holds a grant for.
unfoldable pub find_for_granted_customer :
    (String → String) → ℕ → ℕ → String → Store → Option WithVersion
unfolding is_customer_visible has_active_grant load_current same_email
find_for_granted_customer lower_case id user email s =
    elim (find_one id (λ c. has_active_grant c.lead_id user s.grants && is_customer_visible c)
      s.contracts) [
        | none ↦ none
        | some c ↦ elim (load_current s.versions id c) [
          | none ↦ none
          | some current ↦
              if is_truthy current.version.terms.approved_template_version_id
                && exists_value current.version.terms.approved_template_snapshot
                && same_email lower_case current.version.terms.customer_email email
              then some current
              else none
        ]
      ]

pub record MarkViewed : Type 0 where
  pub contract_id : ℕ
  pub customer_user_id : ℕ
  pub customer_email : String

pub record Changed : Type 0 where
  pub result : WithVersion
  pub changed : Bool

unfoldable pub is_unseen : Contract → Bool
unfolding same_lifecycle
is_unseen c =
    lifecycle_in c.lifecycle_status
      (LifecycleStatus.ready_for_signature ∷ LifecycleStatus.sent_to_customer ∷ [])

unfoldable pub viewed_contract : ℕ → Contract → Contract
viewed_contract user c = record c {
  lifecycle_status = LifecycleStatus.customer_viewed;
  customer_user_id = some user;
  revision = c.revision + 1;
}

-- The write, and the second read of the version; both reads of `loadCurrent` see `committed`.
unfoldable pub write_viewed : Table Version → MarkViewed → Contract → Store → Outcome Changed
unfolding viewed_contract
write_viewed committed i c s =
    let s' = record s {
      contracts = insert i.contract_id (viewed_contract i.customer_user_id c) s.contracts;
    } in
    elim (load_current committed i.contract_id (viewed_contract i.customer_user_id c)) [
      | none ↦ done none s'
      | some result ↦ done (some (record { result = result; changed = true })) s'
    ]

abbrev pub is_customers : MarkViewed → Contract → Bool
is_customers i c = is_some_of c.customer_user_id i.customer_user_id && is_customer_visible c

unfoldable pub mark_customer_viewed :
    (String → String) → Table Version → MarkViewed → Store → Outcome Changed
unfolding is_customer_visible has_active_grant load_current same_email is_unseen is_approved
    write_viewed
mark_customer_viewed lower_case committed i s =
    elim (find_one i.contract_id (is_customers i) s.contracts) [
      | none ↦ done none s
      | some c ↦
          if not (has_active_grant c.lead_id i.customer_user_id s.grants)
          then done none s
          else elim (load_current committed i.contract_id c) [
            | none ↦ done none s
            | some current ↦
                if not (same_email lower_case current.version.terms.customer_email i.customer_email)
                then done none s
                else if not (is_unseen c && is_approved c.review_status)
                then done (some (record { result = current; changed = false })) s
                else write_viewed committed i c s
          ]
    ]
