-- ===== src/Contracts/Freshness.antt =====
-- The version that submitForReview returns is read outside the transaction.
use alsm_web_be.Base.{
  ℕ, true, ◌≡◌, refl, some, lookup, insert, lookup-insert_self, find_one, find_one-cases, inl, inr,
  arith,
}
use alsm_web_be.Contracts.Types.{Version, Contract, ReviewStatus, VersionReviewStatus}
use alsm_web_be.Contracts.Store.{Store, WithVersion, Outcome, done, load_current}
use alsm_web_be.Contracts.Steps.{done-injective, done-none-ne, raise-ne-done}
use alsm_web_be.Contracts.Revising.{
  SubmitForReview, is_submittable, is_version_open, submitted_contract, submitted_version,
  submit_for_review, is_submitted_version,
}

-- What the caller is told, and what was stored.
pub record IsStale (i : SubmitForReview) (w : WithVersion) (t : Store) : Type 0 where
  pub stored : Version
  pub told : is_version_open w.version.review_status ≡ true
  pub pending : w.contract.review_status ≡ ReviewStatus.pending
  pub found : lookup w.version_id t.versions ≡ some stored
  pub in_review : stored.review_status ≡ VersionReviewStatus.internal_review

-- Loading from the table that the version was found in finds that version.
load_found :
    (s : Store) (k : ℕ) (c : Contract) (v : Version)
    → lookup c.current_version_id s.versions ≡ some v
    → v.contract_id ≡ k
    → load_current s.versions k c
      ≡ some (record { id = k; contract = c; version_id = c.current_version_id; version = v })
unfolding load_current find_one
load_found s k c v found owned = ground arith

submitted-IsStale :
    (i : SubmitForReview) (s : Store) (c : Contract) (v : Version) (w : WithVersion) (t : Store)
    → lookup c.current_version_id s.versions ≡ some v
    → is_submitted_version i v ≡ true
    → (let r : Outcome WithVersion =
          done (load_current s.versions i.contract_id (submitted_contract i c)) (record s {
            contracts = insert i.contract_id (submitted_contract i c) s.contracts;
            versions = insert c.current_version_id (submitted_version i.now v) s.versions;
          }) in
        r)
      ≡ done (some w) t
    → IsStale i w t
unfolding submitted_contract submitted_version
submitted-IsStale i s c v w t there fits e =
    let loaded = load_found s i.contract_id (submitted_contract i c) v there (ground arith) in
    let (same, after) = done-injective e in
    let told : w ≡ expected = cc in
    record {
      stored = submitted_version i.now v;
      told = rw told (ground arith);
      pending = rw told;
      found =
          rw (told, ← after)
            (lookup-insert_self c.current_version_id (submitted_version i.now v) s.versions);
      in_review = refl;
    }
  where
    expected : WithVersion
    expected = record {
      id = i.contract_id;
      contract = submitted_contract i c;
      version_id = c.current_version_id;
      version = v;
    }

-- When submitForReview runs in a transaction of its own and returns a contract, the version in its
-- result still has the status from before the call (draft or changes requested), although the
-- contract beside it is pending and the stored version is under internal review.
pub submit_for_review-IsStale :
    (i : SubmitForReview) (s : Store) (w : WithVersion) (t : Store)
    → submit_for_review s.versions i s ≡ done (some w) t
    → IsStale i w t
unfolding submit_for_review
submit_for_review-IsStale i s w t e =
    elim (find_one-cases i.contract_id (is_submittable i) s.contracts) [
      | inl missed ↦ absurd (done-none-ne (rw (missed, submit_for_review) at e))
      | inr (c, found, _, hit) ↦
          elim (find_one-cases c.current_version_id (is_submitted_version i) s.versions) [
            | inl missed ↦ absurd (raise-ne-done (rw (hit, missed, submit_for_review) at e))
            | inr (v, there, fits, hit') ↦
                submitted-IsStale i s c v w t there fits (rw (hit, hit', submit_for_review) at e)
          ]
    ]
