-- ===== src/Contracts/Documents.antt =====
-- attachReviewDocument and attachCanonicalDocument of mongo-contract-aggregate.repository.ts.
use alsm_web_be.Base.{
  ℕ, Bool, true, false, not, ◌&&◌, none, some, [], ◌∷◌, insert, find_one, exists_value, ◌==◌,
}
use alsm_web_be.Contracts.Types.{
  LifecycleStatus, same_lifecycle, DocumentArtifact, Version, Contract,
}
use alsm_web_be.Contracts.Store.{
  Store, Outcome, done, lifecycle_in, is_approved, is_version_approved,
}

pub record AttachDocument : Type 0 where
  pub contract_id : ℕ
  pub lead_id : ℕ
  pub organization_id : ℕ
  pub version_id : ℕ
  pub artifact : DocumentArtifact

unfoldable pub takes_review_document : AttachDocument → Contract → Bool
unfolding same_lifecycle
takes_review_document i c =
    c.lead_id == i.lead_id
    && c.organization_id == i.organization_id
    && c.current_version_id == i.version_id
    && lifecycle_in c.lifecycle_status (
        LifecycleStatus.internal_review ∷ LifecycleStatus.ready_for_signature
        ∷ LifecycleStatus.sent_to_customer ∷ LifecycleStatus.customer_viewed ∷ [])

abbrev pub lacks_review : AttachDocument → Version → Bool
lacks_review i v = v.contract_id == i.contract_id && not (exists_value v.review_document)

-- The result is whether a document was stored.
unfoldable pub attach_review_document : AttachDocument → Store → Outcome Bool
attach_review_document i s = elim (find_one i.contract_id (takes_review_document i) s.contracts) [
  | none ↦ done (some false) s
  | some c ↦ elim (find_one i.version_id (lacks_review i) s.versions) [
    | none ↦ done (some false) s
    | some v ↦ done (some true) (record s {
      versions = insert i.version_id (record v { review_document = some i.artifact }) s.versions;
    })
  ]
]

unfoldable pub takes_canonical_document : AttachDocument → Contract → Bool
unfolding same_lifecycle is_approved
takes_canonical_document i c =
    c.lead_id == i.lead_id
    && c.organization_id == i.organization_id
    && c.current_version_id == i.version_id
    && lifecycle_in c.lifecycle_status (
        LifecycleStatus.ready_for_signature ∷ LifecycleStatus.sent_to_customer
        ∷ LifecycleStatus.customer_viewed ∷ [])
    && is_approved c.review_status

unfoldable pub lacks_canonical : AttachDocument → Version → Bool
unfolding is_version_approved
lacks_canonical i v =
    v.contract_id == i.contract_id
    && is_version_approved v.review_status
    && not (exists_value v.canonical_document)

unfoldable pub attach_canonical_document : AttachDocument → Store → Outcome Bool
attach_canonical_document i s =
    elim (find_one i.contract_id (takes_canonical_document i) s.contracts) [
      | none ↦ done (some false) s
      | some c ↦ elim (find_one i.version_id (lacks_canonical i) s.versions) [
        | none ↦ done (some false) s
        | some v ↦ done (some true) (record s {
          versions =
              insert i.version_id (record v { canonical_document = some i.artifact }) s.versions;
        })
      ]
    ]
