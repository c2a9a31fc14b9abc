-- ===== src/Contracts/Trace.antt =====
-- Any sequence of repository calls, each in a transaction of its own.
use alsm_web_be.Base.{String, List, [], ◌∷◌, lookup}
use alsm_web_be.Contracts.Types.{ManifestBody}
use alsm_web_be.Contracts.Store.{Store, Grant, Outcome, done, raise}
use alsm_web_be.Contracts.Invariant.{IsConsistent}
use alsm_web_be.Contracts.Steps.{
  Step, Step-IsConsistent, Step-Keeps, Keeps, Keeps-refl, Keeps-trans, stay, Ends, ended, aborted,
}
use alsm_web_be.Contracts.Drafting
use alsm_web_be.Contracts.Drafting.{CreateDraft}
use alsm_web_be.Contracts.Revising
use alsm_web_be.Contracts.Revising.{Revise, SubmitForReview}
use alsm_web_be.Contracts.Review
use alsm_web_be.Contracts.Review.{Review, Respond}
use alsm_web_be.Contracts.Viewing
use alsm_web_be.Contracts.Viewing.{MarkViewed}
use alsm_web_be.Contracts.Evidence
use alsm_web_be.Contracts.Documents
use alsm_web_be.Contracts.Evidence.{AttachEvidence}
use alsm_web_be.Contracts.Documents.{AttachDocument}
use alsm_web_be.Contracts.Signing
use alsm_web_be.Contracts.Envelopes
use alsm_web_be.Contracts.Signing.{StartDemo, CompleteDemo, StartProvider}
use alsm_web_be.Contracts.Envelopes.{UpdateStatus}
use alsm_web_be.Contracts.RevisingSteps.{create_draft-Step, revise-Step, submit_for_review-Step}
use alsm_web_be.Contracts.ReviewSteps.{
  review-Step, respond_by_customer-Step, mark_customer_viewed-Step,
}
use alsm_web_be.Contracts.EvidenceSteps.{
  attach_verified_final_evidence-Step, attach_review_document-Step, attach_canonical_document-Step,
}
use alsm_web_be.Contracts.SigningSteps.{
  start_demo_signing-Step, complete_demo_signing-Step, start_provider_signing-Step,
  update_provider_signing_status-Step,
}

-- The calls of ContractAggregateRepository that may write.
pub data Call : Type 0 where
  create_draft : CreateDraft → Call
  revise : Revise → Call
  submit_for_review : SubmitForReview → Call
  review : Review → Call
  respond_by_customer : Respond → Call
  mark_customer_viewed : MarkViewed → Call
  attach_verified_final_evidence : AttachEvidence → Call
  attach_review_document : AttachDocument → Call
  attach_canonical_document : AttachDocument → Call
  start_demo_signing : StartDemo → Call
  complete_demo_signing : CompleteDemo → Call
  start_provider_signing : StartProvider → Call
  update_provider_signing_status : UpdateStatus → Call

-- The store once the transaction is over: an error leaves the one before.
unfoldable pub settle : {A : Type 0} → Store → Outcome A → Store
settle s (done _ t) = t
settle s (raise _) = s

-- A store with no contract yet.
unfoldable pub initial : List Grant → Store
initial grants = record { contracts = []; versions = []; grants = grants }

settle-Step :
    {A : Type 0} (digest : ManifestBody → String) (s : Store) (o : Outcome A)
    → Ends (Step digest s) o
    → Step digest s (settle s o)
unfolding settle
settle-Step digest s (done _ _) (ended p) = p
settle-Step digest s (raise _) aborted = stay

module _ (lower_case : String → String) (digest : ManifestBody → String) where
  unfoldable pub apply : Call → Store → Store
  apply (create_draft i) s = settle s (Drafting.create_draft i s)
  apply (revise i) s = settle s (Revising.revise i s)
  apply (submit_for_review i) s = settle s (Revising.submit_for_review s.versions i s)
  apply (review i) s = settle s (Review.review i s)
  apply (respond_by_customer i) s = settle s (Review.respond_by_customer i s)
  apply (mark_customer_viewed i) s =
      settle s (Viewing.mark_customer_viewed lower_case s.versions i s)
  apply (attach_verified_final_evidence i) s =
      settle s (Evidence.attach_verified_final_evidence digest i s)
  apply (attach_review_document i) s = settle s (Documents.attach_review_document i s)
  apply (attach_canonical_document i) s = settle s (Documents.attach_canonical_document i s)
  apply (start_demo_signing i) s = settle s (Signing.start_demo_signing i s)
  apply (complete_demo_signing i) s = settle s (Signing.complete_demo_signing i s)
  apply (start_provider_signing i) s = settle s (Signing.start_provider_signing i s)
  apply (update_provider_signing_status i) s =
      settle s (Envelopes.update_provider_signing_status s.versions i s)

  unfoldable pub run : List Call → Store → Store
  run [] s = s
  run (call ∷ calls) s = run calls (apply call s)

  pub apply-Step : (call : Call) (s : Store) → IsConsistent digest s → Step digest s (apply call s)
  unfolding apply
  apply-Step (create_draft i) s h =
      settle-Step digest s _ (create_draft-Step digest s.versions i s h)
  apply-Step (revise i) s h = settle-Step digest s _ (revise-Step digest s.versions i s h)
  apply-Step (submit_for_review i) s h =
      settle-Step digest s _ (submit_for_review-Step digest s.versions i s h)
  apply-Step (review i) s h = settle-Step digest s _ (review-Step digest i s h)
  apply-Step (respond_by_customer i) s h =
      settle-Step digest s _ (respond_by_customer-Step digest i s h)
  apply-Step (mark_customer_viewed i) s h =
      settle-Step digest s _ (mark_customer_viewed-Step digest lower_case s.versions i s h)
  apply-Step (attach_verified_final_evidence i) s h =
      settle-Step digest s _ (attach_verified_final_evidence-Step digest i s h)
  apply-Step (attach_review_document i) s h =
      settle-Step digest s _ (attach_review_document-Step digest i s h)
  apply-Step (attach_canonical_document i) s h =
      settle-Step digest s _ (attach_canonical_document-Step digest i s h)
  apply-Step (start_demo_signing i) s h =
      settle-Step digest s _ (start_demo_signing-Step digest i s h)
  apply-Step (complete_demo_signing i) s h =
      settle-Step digest s _ (complete_demo_signing-Step digest i s h)
  apply-Step (start_provider_signing i) s h =
      settle-Step digest s _ (start_provider_signing-Step digest i s h)
  apply-Step (update_provider_signing_status i) s h =
      settle-Step digest s _ (update_provider_signing_status-Step digest s.versions i s h)

  -- From a consistent store, any sequence of repository calls leads to a consistent store: every
  -- contract has its current version, which is its own and has the status that matches its review;
  -- whoever reviewed a contract did not create it, and a reviewed contract names its reviewer; an
  -- approved version names a template; stored evidence has the digest of its manifest and names a
  -- stored version whose canonical document has the digest that the manifest gives; and a contract
  -- whose archive is verified has evidence.
  pub run-IsConsistent :
      (calls : List Call) (s : Store) → IsConsistent digest s → IsConsistent digest (run calls s)
  unfolding run
  run-IsConsistent [] s h = h
  run-IsConsistent (call ∷ calls) s h =
      run-IsConsistent calls (apply call s) (Step-IsConsistent digest (apply-Step call s h) h)

  -- From a consistent store, whatever calls follow, every stored version is still there with its
  -- owner, number, terms and (once it has one) canonical document, and every stored contract with
  -- its lead, organization, number, creator and creation request, at a revision that is not lower.
  pub run-Keeps : (calls : List Call) (s : Store) → IsConsistent digest s → Keeps s (run calls s)
  unfolding run
  run-Keeps [] s h = Keeps-refl s
  run-Keeps (call ∷ calls) s h =
      let step = apply-Step call s h in
      Keeps-trans (Step-Keeps digest step)
        (run-Keeps calls (apply call s) (Step-IsConsistent digest step h))

-- An empty store is consistent.
pub initial-IsConsistent :
    (digest : ManifestBody → String) (grants : List Grant) → IsConsistent digest (initial grants)
unfolding initial lookup
initial-IsConsistent digest grants = record { contracts = λ k c e. cc; versions = λ k v e. cc }
