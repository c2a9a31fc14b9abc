-- ===== src/Contracts/FourEyes.antt =====
-- What a review does, and when it does nothing.
use alsm_web_be.Base.{
  ℕ, ◌+◌, String, ◌==◌, ==_iff, Bool, true, false, not, ◌≡◌, refl, ◌≢◌, ap, none, some, lookup,
  insert, lookup-insert_self, lookup-insert_ne, find_one, find_one-cases, Bool-cases, inl, inr,
  arith, ◌&&◌, is_truthy, is_truthy_trimmed, trim,
}
use alsm_web_be.Contracts.Types.{
  LifecycleStatus, same_lifecycle, lifecycle_code, ReviewStatus, VersionReviewStatus, Version,
  Contract, approve, return, reject, ReviewAction,
}
use alsm_web_be.Contracts.Store.{Store, WithVersion, done}
use alsm_web_be.Contracts.Steps.{done-none-ne}
use alsm_web_be.Contracts.Invariant.{Preserves}
use alsm_web_be.Contracts.ReviewSteps.{reviewed-Preserves}
use alsm_web_be.Contracts.Review.{
  Review, is_pending, is_under_review, is_approve, is_version_in_review, reason_after,
  reviewed_contract, reviewed_version, write_review, review,
}

-- The three statuses of a contract and its version.
abbrev pub HasStatuses : LifecycleStatus → ReviewStatus → VersionReviewStatus → WithVersion → Type 0
HasStatuses l r v w =
    (w.contract.lifecycle_status ≡ l)
    × (w.contract.review_status ≡ r)
    × (w.version.review_status ≡ v)

abbrev pub IsApproval : Review → WithVersion → Type 0
IsApproval i w =
    HasStatuses LifecycleStatus.sent_to_customer ReviewStatus.approved VersionReviewStatus.approved
      w
    × (w.version.approved_by_user_id ≡ some i.actor_user_id)
    × (w.version.approved_at ≡ some i.now)

abbrev pub IsSentBack : Review → WithVersion → Type 0
IsSentBack i w =
    (w.version.returned_at ≡ some i.now)
    × ((r : String) → i.reason ≡ some r → w.version.return_reason ≡ some (trim r))

-- The contract under review, and its current version.
pub record IsUnderReview (i : Review) (s : Store) (c : Contract) (v : Version) : Type 0 where
  pub found : lookup i.contract_id s.contracts ≡ some c
  pub version_found : lookup c.current_version_id s.versions ≡ some v
  pub owned : v.contract_id ≡ i.contract_id
  pub lead : c.lead_id ≡ i.lead_id
  pub organization : c.organization_id ≡ i.organization_id
  pub lifecycle : c.lifecycle_status ≡ LifecycleStatus.internal_review
  pub pending : c.review_status ≡ ReviewStatus.pending
  pub in_review : v.review_status ≡ VersionReviewStatus.internal_review
  pub other_person : c.created_by_user_id ≢ i.actor_user_id
  pub template : i.action ≡ approve → is_truthy v.terms.approved_template_version_id ≡ true
  pub reason : i.action ≢ approve → is_truthy_trimmed i.reason ≡ true

-- What a review makes of the contract and the version.
pub record IsReviewOf (i : Review) (c : Contract) (v : Version) (w : WithVersion) : Type 0 where
  pub approved : i.action ≡ approve → IsApproval i w
  pub returned :
      i.action ≡ return
      → HasStatuses LifecycleStatus.changes_requested ReviewStatus.changes_requested
          VersionReviewStatus.changes_requested w
        × IsSentBack i w
  pub rejected :
      i.action ≡ reject
      → HasStatuses LifecycleStatus.rejected ReviewStatus.rejected VersionReviewStatus.rejected w
        × IsSentBack i w
  pub reviewer : w.contract.reviewed_by_user_id ≡ some i.actor_user_id
  pub at : w.contract.reviewed_at ≡ some i.now
  pub new_reason : (r : String) → i.reason ≡ some r → w.contract.review_reason ≡ some (trim r)
  pub old_reason : i.reason ≡ none → w.contract.review_reason ≡ c.review_reason
  pub revision : w.contract.revision ≡ c.revision + 1
  pub current : w.contract.current_version_id ≡ c.current_version_id
  pub kept : Preserves v w.version

-- What of the store is another after a review.
pub record IsWritten (s : Store) (w : WithVersion) (contract_id version_id : ℕ) (t : Store)
    : Type 0 where
  pub contract_stored : lookup contract_id t.contracts ≡ some w.contract
  pub version_stored : lookup version_id t.versions ≡ some w.version
  pub other_contracts : (k : ℕ) → k ≢ contract_id → lookup k t.contracts ≡ lookup k s.contracts
  pub other_versions : (k : ℕ) → k ≢ version_id → lookup k t.versions ≡ lookup k s.versions

write_review-done :
    (i : Review) (c : Contract) (v : Version) (s : Store) (w : WithVersion) (t : Store)
    → write_review i c v s ≡ done (some w) t
    → ((is_approve i.action && not (is_truthy v.terms.approved_template_version_id)) ≡ false)
      × ((not (is_approve i.action) && not (is_truthy_trimmed i.reason)) ≡ false)
      × (is_version_in_review v.review_status ≡ true)
      × (w.contract ≡ reviewed_contract i c)
      × (w.version ≡ reviewed_version i v)
      × (t.contracts ≡ insert i.contract_id (reviewed_contract i c) s.contracts)
      × (t.versions ≡ insert c.current_version_id (reviewed_version i v) s.versions)
unfolding write_review
write_review-done i c v s w t e = ground arith

reason_given :
    (a : ReviewAction) (b : Bool) → (not (is_approve a) && not b) ≡ false → a ≢ approve → b ≡ true
reason_given approve b h ne = absurd (ne refl)
reason_given return b h ne = ground arith
reason_given reject b h ne = ground arith

pending_lem : (r : ReviewStatus) → is_pending r ≡ true → r ≡ ReviewStatus.pending
unfolding is_pending
pending_lem ReviewStatus.pending h = refl
pending_lem ReviewStatus.not_submitted h = cc
pending_lem ReviewStatus.approved h = cc
pending_lem ReviewStatus.changes_requested h = cc
pending_lem ReviewStatus.rejected h = cc

in_review_lem :
    (r : VersionReviewStatus)
    → is_version_in_review r ≡ true
    → r ≡ VersionReviewStatus.internal_review
unfolding is_version_in_review
in_review_lem VersionReviewStatus.internal_review h = refl
in_review_lem VersionReviewStatus.draft h = cc
in_review_lem VersionReviewStatus.approved h = cc
in_review_lem VersionReviewStatus.changes_requested h = cc
in_review_lem VersionReviewStatus.rejected h = cc

internal_review_lem :
    (l : LifecycleStatus)
    → same_lifecycle l LifecycleStatus.internal_review ≡ true
    → l ≡ LifecycleStatus.internal_review
unfolding same_lifecycle lifecycle_code
internal_review_lem LifecycleStatus.internal_review h = refl
internal_review_lem LifecycleStatus.draft h = cc
internal_review_lem LifecycleStatus.ready_for_signature h = cc
internal_review_lem LifecycleStatus.alsm_signing_in_progress h = cc
internal_review_lem LifecycleStatus.alsm_partially_signed h = cc
internal_review_lem LifecycleStatus.alsm_signed h = cc
internal_review_lem LifecycleStatus.sent_to_customer h = cc
internal_review_lem LifecycleStatus.customer_viewed h = cc
internal_review_lem LifecycleStatus.customer_signing_in_progress h = cc
internal_review_lem LifecycleStatus.customer_partially_signed h = cc
internal_review_lem LifecycleStatus.customer_signed h = cc
internal_review_lem LifecycleStatus.changes_requested h = cc
internal_review_lem LifecycleStatus.rejected h = cc
internal_review_lem LifecycleStatus.expired h = cc
internal_review_lem LifecycleStatus.cancelled h = cc
internal_review_lem LifecycleStatus.provider_error h = cc
internal_review_lem LifecycleStatus.provider_completed_evidence_pending h = cc
internal_review_lem LifecycleStatus.provider_completed_evidence_failed h = cc
internal_review_lem LifecycleStatus.completed h = cc
internal_review_lem LifecycleStatus.legacy_unverified h = cc

reviewed-IsReviewOf :
    (i : Review) (c : Contract) (v : Version) (w : WithVersion)
    → w.contract ≡ reviewed_contract i c
    → w.version ≡ reviewed_version i v
    → IsReviewOf i c v w
unfolding reviewed_contract reviewed_version reason_after
reviewed-IsReviewOf i c v w contract version = record {
  approved = λ a. rw (contract, version, a) ((refl, refl, refl), refl, refl);
  returned = λ a. rw (contract, version, a) ((refl, refl, refl), (refl, λ r given. rw given refl));
  rejected = λ a. rw (contract, version, a) ((refl, refl, refl), (refl, λ r given. rw given refl));
  reviewer = ap (λ x. x.reviewed_by_user_id) contract;
  at = ap (λ x. x.reviewed_at) contract;
  new_reason = λ r given. rw (contract, given) refl;
  old_reason = λ given. rw (contract, given) refl;
  revision = ap (λ x. x.revision) contract;
  current = ap (λ x. x.current_version_id) contract;
  kept = rw version (reviewed-Preserves i v);
}

inserted-IsWritten :
    (i : Review) (c : Contract) (v : Version) (s : Store) (w : WithVersion) (t : Store)
    → w.contract ≡ reviewed_contract i c
    → w.version ≡ reviewed_version i v
    → t.contracts ≡ insert i.contract_id (reviewed_contract i c) s.contracts
    → t.versions ≡ insert c.current_version_id (reviewed_version i v) s.versions
    → IsWritten s w i.contract_id c.current_version_id t
inserted-IsWritten i c v s w t contract version contracts versions = record {
  contract_stored =
      rw (contracts, contract)
        (lookup-insert_self i.contract_id (reviewed_contract i c) s.contracts);
  version_stored =
      rw (versions, version)
        (lookup-insert_self c.current_version_id (reviewed_version i v) s.versions);
  other_contracts = λ k ne.
      rw contracts (lookup-insert_ne i.contract_id k (reviewed_contract i c) s.contracts ne);
  other_versions = λ k ne.
      rw versions (lookup-insert_ne c.current_version_id k (reviewed_version i v) s.versions ne);
}

-- A review that returns a contract found it under internal review and PENDING for this lead and
-- organization, with its version in review too, and was made by somebody other than its creator; an
-- approval names a template in the version, a return or rejection has a reason. What it returns has
-- the three statuses that belong to the action, the approval or the return in the version, the
-- reviewer, the time, the trimmed reason if one was given and else the old one, the next revision,
-- and a version with the same owner, number and terms. That is what the store now holds, and no
-- other contract and no other version has changed.
pub review-IsReviewOf :
    (i : Review) (s : Store) (w : WithVersion) (t : Store)
    → review i s ≡ done (some w) t
    → (c : Contract) × (v : Version) × IsUnderReview i s c v
      × IsReviewOf i c v w
      × IsWritten s w i.contract_id c.current_version_id t
unfolding review is_under_review
review-IsReviewOf i s w t e = elim (find_one-cases i.contract_id (is_under_review i) s.contracts) [
  | inl missed ↦ absurd (done-none-ne (rw (missed, review) at e))
  | inr (c, found, fits, hit) ↦ elim (Bool-cases (c.created_by_user_id == i.actor_user_id)) [
    | inl own ↦ absurd (done-none-ne (rw (hit, own, review) at e))
    | inr other ↦
        elim (find_one-cases c.current_version_id (λ v. v.contract_id == i.contract_id)
          s.versions) [
            | inl missed ↦ absurd (done-none-ne (rw (hit, other, missed, review) at e))
            | inr (v, there, owned, hit') ↦
                let (template, reason, in_review, contract, version, contracts, versions) =
                  write_review-done i c v s w t (rw (hit, other, hit', review) at e) in
                (
                  c,
                  v,
                  record {
                    found = found;
                    version_found = there;
                    owned = (==_iff v.contract_id i.contract_id).0 owned;
                    lead = ground (arith, fits);
                    organization = ground (arith, fits);
                    lifecycle = internal_review_lem c.lifecycle_status (ground (arith, fits));
                    pending = pending_lem c.review_status (ground (arith, fits));
                    in_review = in_review_lem v.review_status in_review;
                    other_person = ground arith;
                    template = λ a. ground arith;
                    reason = λ a. reason_given i.action (is_truthy_trimmed i.reason) reason a;
                  },
                  reviewed-IsReviewOf i c v w contract version,
                  inserted-IsWritten i c v s w t contract version contracts versions,
                )
          ]
  ]
]

-- Nobody reviews a contract that he created: the call returns null and changes nothing.
pub review_of_own :
    (i : Review) (s : Store) (c : Contract)
    → lookup i.contract_id s.contracts ≡ some c
    → c.created_by_user_id ≡ i.actor_user_id
    → review i s ≡ done none s
unfolding review find_one
review_of_own i s c found own = ground arith
