-- ===== src/Contracts/EvidenceSteps.antt =====
-- The calls that attach documents and evidence take a step of the store.
use mathlib.Core.Path.{subst}
use alsm_web_be.Base.{
  ◌==◌, String, true, not, ◌≡◌, refl, ◌≢◌, Option, none, some, Table, lookup, find_one-cases,
  ==_iff, str_eq, str_eq_iff, inl, inr, arith, ◌&&◌,
}
use alsm_web_be.Contracts.Types.{ManifestBody, DocumentArtifact, Version, Contract}
use alsm_web_be.Contracts.Store.{Store}
use alsm_web_be.Contracts.Invariant.{
  HasTemplate-insert, Grows-insert_same, IsBound, IsEvidenced, IsConsistent,
}
use alsm_web_be.Contracts.Steps.{Continues, Step, stay, document, Ends, ended, aborted, Ends-if}
use alsm_web_be.Contracts.Writes.{update_contract}
use alsm_web_be.Contracts.Evidence.{
  AttachEvidence, is_valid_body, awaits_evidence, completed_contract, is_done, is_open_for_evidence,
  same_manifest_sha256, write_evidence, is_evidenced_version, has_canonical_sha256,
  attach_verified_final_evidence,
}
use alsm_web_be.Contracts.Documents.{
  AttachDocument, takes_review_document, lacks_review, attach_review_document,
  takes_canonical_document, lacks_canonical, attach_canonical_document,
}

completed-Continues : (i : AttachEvidence) (c : Contract) → Continues c (completed_contract i c)
unfolding completed_contract
completed-Continues i c = ground arith

has_canonical-document :
    (sha : String) (o : Option DocumentArtifact)
    → has_canonical_sha256 sha o ≡ true
    → (d : DocumentArtifact) × (o ≡ some d) × (d.sha256 ≡ sha)
unfolding has_canonical_sha256
has_canonical-document sha none h = cc
has_canonical-document sha (some d) h = (d, refl, ground (arith, str_eq_iff d.sha256 sha))

-- The evidence that is stored is bound to the version that was found for it.
completed-IsEvidenced :
    (digest : ManifestBody → String) (i : AttachEvidence) (c : Contract) (v : Version)
    (vs : Table Version)
    → lookup i.version_id vs ≡ some v
    → is_evidenced_version i v ≡ true
    → i.manifest.body.contract_version_id ≡ i.version_id
    → i.manifest.manifest_sha256 ≡ digest i.manifest.body
    → IsEvidenced digest vs (completed_contract i c)
unfolding completed_contract is_evidenced_version
completed-IsEvidenced digest i c v vs found fits same digested =
    let (d, stored, sha) =
      has_canonical-document i.manifest.body.canonical_document_sha256 v.canonical_document
        (ground arith) in
    record {
      bound = λ m e.
          let eq : i.manifest ≡ m = cc in
          subst (IsBound digest vs) eq (record {
            version = v;
            document = d;
            found = rw same found;
            stored = stored;
            same = sha;
            digested = digested;
          });
      archived = λ e. refl;
    }

lacks_canonical-none :
    (i : AttachDocument) (v : Version) (d : DocumentArtifact)
    → lacks_canonical i v ≡ true
    → v.canonical_document ≢ some d
unfolding lacks_canonical
lacks_canonical-none i v d h e = ground arith

module _ (digest : ManifestBody → String) where
  write_evidence-Step :
      (i : AttachEvidence) (c : Contract) (v : Version) (s : Store)
      → IsConsistent digest s
      → lookup i.contract_id s.contracts ≡ some c
      → lookup i.version_id s.versions ≡ some v
      → is_evidenced_version i v ≡ true
      → i.manifest.body.contract_version_id ≡ i.version_id
      → i.manifest.manifest_sha256 ≡ digest i.manifest.body
      → Ends (Step digest s) (write_evidence i c v s)
  unfolding write_evidence
  write_evidence-Step i c v s h found there fits same digested =
      Ends-if (Step digest s) (is_done c) _ _
        (λ _.
          Ends-if (Step digest s) (same_manifest_sha256 c.final_evidence i.manifest.manifest_sha256)
            _ _ (λ _. ended stay) (λ _. aborted))
        (λ _.
          Ends-if (Step digest s) (is_open_for_evidence c) _ _
            (λ _. ended (
              update_contract digest s i.contract_id c (completed_contract i c) h found
                (completed-Continues i c) refl refl refl
                (completed-IsEvidenced digest i c v s.versions there fits same digested)))
            (λ _. aborted))

  pub attach_verified_final_evidence-Step :
      (i : AttachEvidence) (s : Store)
      → IsConsistent digest s
      → Ends (Step digest s) (attach_verified_final_evidence digest i s)
  unfolding attach_verified_final_evidence
  attach_verified_final_evidence-Step i s h =
      Ends-if (Step digest s)
        (not (
          is_valid_body i.manifest.body
          && str_eq i.manifest.manifest_sha256 (digest i.manifest.body)))
        _ _ (λ _. aborted)
        (λ valid. elim (find_one-cases i.contract_id (awaits_evidence i) s.contracts) [
          | inl missed ↦ rw missed (ended stay)
          | inr (c, found, _, hit) ↦
              elim (find_one-cases i.version_id (is_evidenced_version i) s.versions) [
                | inl missed ↦ rw (hit, missed) aborted
                | inr (v, there, fits, hit') ↦
                    rw (hit, hit')
                      (Ends-if (Step digest s) (i.manifest.body.contract_version_id == i.version_id)
                        _ _
                        (λ same.
                          write_evidence-Step i c v s h found there fits ((==_iff _ _).0 same) (
                            ground (
                              arith,
                              str_eq_iff i.manifest.manifest_sha256 (digest i.manifest.body),
                            )))
                        (λ _. aborted))
              ]
        ])

  pub attach_review_document-Step :
      (i : AttachDocument) (s : Store)
      → IsConsistent digest s
      → Ends (Step digest s) (attach_review_document i s)
  unfolding attach_review_document
  attach_review_document-Step i s h =
      elim (find_one-cases i.contract_id (takes_review_document i) s.contracts) [
        | inl missed ↦ rw (missed, attach_review_document) (ended stay)
        | inr (c, _, _, hit) ↦ elim (find_one-cases i.version_id (lacks_review i) s.versions) [
          | inl missed ↦ rw (hit, missed, attach_review_document) (ended stay)
          | inr (v, there, _, hit') ↦
              let w = record v { review_document = some i.artifact } in
              rw (hit, hit', attach_review_document)
                (ended (
                  document _
                    (Grows-insert_same i.version_id v w s.versions there
                      (record { owner = refl; number = refl; terms = refl; canonical = λ d e. e })
                      refl)
                    (HasTemplate-insert i.version_id w s.versions h.versions
                      (h.versions i.version_id v there))))
        ]
      ]

  pub attach_canonical_document-Step :
      (i : AttachDocument) (s : Store)
      → IsConsistent digest s
      → Ends (Step digest s) (attach_canonical_document i s)
  unfolding attach_canonical_document
  attach_canonical_document-Step i s h =
      elim (find_one-cases i.contract_id (takes_canonical_document i) s.contracts) [
        | inl missed ↦ rw (missed, attach_canonical_document) (ended stay)
        | inr (c, _, _, hit) ↦ elim (find_one-cases i.version_id (lacks_canonical i) s.versions) [
          | inl missed ↦ rw (hit, missed, attach_canonical_document) (ended stay)
          | inr (v, there, lacks, hit') ↦
              let w = record v { canonical_document = some i.artifact } in
              rw (hit, hit', attach_canonical_document)
                (ended (
                  document _
                    (Grows-insert_same i.version_id v w s.versions there
                      (record {
                        owner = refl;
                        number = refl;
                        terms = refl;
                        canonical = λ d e. absurd (lacks_canonical-none i v d lacks e);
                      })
                      refl)
                    (HasTemplate-insert i.version_id w s.versions h.versions
                      (h.versions i.version_id v there))))
        ]
      ]
