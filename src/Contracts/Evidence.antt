-- ===== src/Contracts/Evidence.antt =====
-- attachVerifiedFinalEvidence of mongo-contract-aggregate.repository.ts. The argument `digest` is
-- calculateFinalEvidenceManifestSha256 (contract-final-evidence.ts): SHA-256 of a JSON text.
use alsm_web_be.Base.{
  ℕ, ◌+◌, String, Bool, true, false, not, ◌&&◌, Option, none, some, [], ◌∷◌, insert, find_one,
  exists_value, leb, all, ◌==◌, str_eq, is_empty, trim, is_hex, is_run_of, if◌then◌else◌,
}
use alsm_web_be.Contracts.Types.{
  LifecycleStatus, same_lifecycle, ProviderCompletionStatus, ArchiveStatus, ActivationStatus,
  DocumentKind, DocumentArtifact, EvidenceKind, MimeType, EvidenceArtifact, ManifestBody, Manifest,
  Version, Contract,
}
use alsm_web_be.Contracts.Store.{
  Store, Outcome, done, raise, final_evidence_manifest_invalid, final_evidence_version_mismatch,
  final_evidence_already_archived, final_evidence_state_conflict, lifecycle_in, is_approved,
  is_version_approved,
}
use alsm_web_be.Contracts.Drafting.{Replayed}

abbrev is_sha256 : String → Bool
is_sha256 s = is_run_of is_hex 64 s

abbrev is_blank : String → Bool
is_blank s = is_empty (trim s)

-- `byteLength` is a natural number here, so `isSafeInteger` is its upper bound.
unfoldable pub is_valid_artifact : EvidenceArtifact → Bool
unfolding is_hex is_run_of trim
is_valid_artifact a =
    not (is_blank a.storage_reference)
    && is_sha256 a.sha256
    && leb a.byte_length 9007199254740991
    && leb 1 a.byte_length
    && str_eq a.encryption "AES-256-GCM"
    && not (is_blank a.encryption_key_version)
    && not (is_blank a.file_name)
    && exists_value a.archived_at

abbrev pub is_signed_pdf : EvidenceKind → Bool
is_signed_pdf EvidenceKind.signed_pdf = true
is_signed_pdf _ = false

abbrev pub is_application_pdf : MimeType → Bool
is_application_pdf MimeType.application_pdf = true
is_application_pdf _ = false

unfoldable pub is_valid_body : ManifestBody → Bool
unfolding is_valid_artifact
is_valid_body m =
    exists_value m.provider_completed_at
    && exists_value m.archived_at
    && exists_value m.signed_pdf.archived_at
    && is_valid_artifact m.signed_pdf
    && all is_valid_artifact m.supporting_artifacts
    && is_signed_pdf m.signed_pdf.kind
    && is_application_pdf m.signed_pdf.mime_type
    && not (is_blank m.provider_key)
    && not (is_blank m.provider_envelope_reference)
    && not (is_blank m.provider_completion_event_reference)
    && is_sha256 m.canonical_document_sha256

-- The canonical document of a version, where its kind is CANONICAL_UNSIGNED.
unfoldable pub is_canonical : DocumentKind → Bool
is_canonical DocumentKind.canonical_unsigned = true
is_canonical DocumentKind.review_copy = false

unfoldable pub has_canonical_sha256 : String → Option DocumentArtifact → Bool
unfolding is_canonical
has_canonical_sha256 sha none = false
has_canonical_sha256 sha (some d) = is_canonical d.kind && str_eq d.sha256 sha

abbrev pub is_confirmed : ProviderCompletionStatus → Bool
is_confirmed ProviderCompletionStatus.confirmed = true
is_confirmed ProviderCompletionStatus.not_started = false

abbrev pub is_archive_started : ArchiveStatus → Bool
is_archive_started ArchiveStatus.not_started = false
is_archive_started _ = true

abbrev pub is_archive_verified : ArchiveStatus → Bool
is_archive_verified ArchiveStatus.verified = true
is_archive_verified _ = false

pub record AttachEvidence : Type 0 where
  pub contract_id : ℕ
  pub lead_id : ℕ
  pub organization_id : ℕ
  pub version_id : ℕ
  pub manifest : Manifest
  pub now : ℕ

unfoldable pub awaits_evidence : AttachEvidence → Contract → Bool
unfolding same_lifecycle is_approved
awaits_evidence i c =
    c.lead_id == i.lead_id
    && c.organization_id == i.organization_id
    && c.current_version_id == i.version_id
    && is_approved c.review_status
    && is_confirmed c.provider_completion_status
    && lifecycle_in c.lifecycle_status (
        LifecycleStatus.provider_completed_evidence_pending
        ∷ LifecycleStatus.provider_completed_evidence_failed ∷ LifecycleStatus.completed ∷ [])
    && is_archive_started c.archive_status

unfoldable pub completed_contract : AttachEvidence → Contract → Contract
completed_contract i c = record c {
  lifecycle_status = LifecycleStatus.completed;
  archive_status = ArchiveStatus.verified;
  activation_status =
      if str_eq i.manifest.body.provider_key "ALSM_DEMO"
      then ActivationStatus.not_eligible
      else ActivationStatus.eligible;
  final_evidence = some i.manifest;
  completed_at = some i.now;
  revision = c.revision + 1;
}

abbrev pub same_manifest_sha256 : Option Manifest → String → Bool
same_manifest_sha256 none sha = false
same_manifest_sha256 (some m) sha = str_eq m.manifest_sha256 sha

abbrev pub is_done : Contract → Bool
is_done c =
    same_lifecycle c.lifecycle_status LifecycleStatus.completed
    && is_archive_verified c.archive_status

abbrev pub is_open_for_evidence : Contract → Bool
is_open_for_evidence c =
    lifecycle_in c.lifecycle_status (
      LifecycleStatus.provider_completed_evidence_pending
      ∷ LifecycleStatus.provider_completed_evidence_failed ∷ [])
    && is_archive_started c.archive_status
    && not (is_archive_verified c.archive_status)

unfoldable pub write_evidence : AttachEvidence → Contract → Version → Store → Outcome Replayed
unfolding completed_contract same_lifecycle
write_evidence i c v s =
    if is_done c
    then (if same_manifest_sha256 c.final_evidence i.manifest.manifest_sha256
        then done
            (some (record {
              result = record {
                id = i.contract_id;
                contract = c;
                version_id = i.version_id;
                version = v;
              };
              replayed = true;
            }))
            s
        else raise final_evidence_already_archived)
    else if is_open_for_evidence c
    then done
        (some (record {
          result = record {
            id = i.contract_id;
            contract = completed_contract i c;
            version_id = i.version_id;
            version = v;
          };
          replayed = false;
        }))
        (record s { contracts = insert i.contract_id (completed_contract i c) s.contracts })
    else raise final_evidence_state_conflict

unfoldable pub is_evidenced_version : AttachEvidence → Version → Bool
unfolding has_canonical_sha256 is_version_approved
is_evidenced_version i v =
    v.contract_id == i.contract_id
    && is_version_approved v.review_status
    && has_canonical_sha256 i.manifest.body.canonical_document_sha256 v.canonical_document

unfoldable pub attach_verified_final_evidence :
    (ManifestBody → String) → AttachEvidence → Store → Outcome Replayed
attach_verified_final_evidence digest i s =
    if not
      (is_valid_body i.manifest.body && str_eq i.manifest.manifest_sha256 (digest i.manifest.body))
    then raise final_evidence_manifest_invalid
    else elim (find_one i.contract_id (awaits_evidence i) s.contracts) [
      | none ↦ done none s
      | some c ↦ elim (find_one i.version_id (is_evidenced_version i) s.versions) [
        | none ↦ raise final_evidence_version_mismatch
        | some v ↦
            if i.manifest.body.contract_version_id == i.version_id
            then write_evidence i c v s
            else raise final_evidence_version_mismatch
      ]
    ]
