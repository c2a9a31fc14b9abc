-- ===== src/Contracts/Signing.antt =====
-- startDemoSigning, completeDemoSigning and startProviderSigning of
-- mongo-contract-aggregate.repository.ts.
use alsm_web_be.Base.{
  ℕ, ◌+◌, String, Bool, true, false, not, ◌&&◌, Option, none, some, [], ◌∷◌, insert, find_one, leb,
  ltb, ◌==◌, str_eq, is_some_of, if◌then◌else◌,
}
use alsm_web_be.Contracts.Types.{
  LifecycleStatus, same_lifecycle, ProviderCompletionStatus, ArchiveStatus, DemoSigningSession,
  DemoSessionStatus, ProviderSessionStatus, DocumentArtifact, Version, Contract,
}
use alsm_web_be.Contracts.Store.{
  Store, WithVersion, Outcome, done, lifecycle_in, is_approved, is_version_approved, load_current,
}
use alsm_web_be.Contracts.Evidence.{is_canonical, is_confirmed, is_archive_started}

pub record StartDemo : Type 0 where
  pub contract_id : ℕ
  pub version_id : ℕ
  pub customer_user_id : ℕ
  pub provider_envelope_reference : String
  pub now : ℕ
  pub expires_at : ℕ

-- The canonical document of the version to be signed, if the version is approved and has one.
unfoldable pub signable_document : ℕ → ℕ → Store → Option (Version × DocumentArtifact)
unfolding is_version_approved is_canonical
signable_document contract_id version_id s =
    elim (find_one version_id
      (λ v. v.contract_id == contract_id && is_version_approved v.review_status) s.versions) [
        | none ↦ none
        | some v ↦ elim v.canonical_document [
          | none ↦ none
          | some d ↦ if is_canonical d.kind then some (v, d) else none
        ]
      ]

unfoldable pub is_signable : Contract → Bool
unfolding same_lifecycle
is_signable c = lifecycle_in c.lifecycle_status (
    LifecycleStatus.ready_for_signature ∷ LifecycleStatus.sent_to_customer
    ∷ LifecycleStatus.customer_viewed ∷ [])

abbrev is_sent : DemoSessionStatus → Bool
is_sent DemoSessionStatus.sent = true
is_sent DemoSessionStatus.completed = false

-- No demo session yet, or one that was sent and has run out.
unfoldable pub can_start_demo : ℕ → Option DemoSigningSession → Bool
can_start_demo now none = true
can_start_demo now (some d) = is_sent d.status && leb d.expires_at now

unfoldable pub is_ready_for_demo : StartDemo → Contract → Bool
unfolding is_approved is_signable can_start_demo
is_ready_for_demo i c =
    c.current_version_id == i.version_id
    && is_some_of c.customer_user_id i.customer_user_id
    && is_approved c.review_status
    && not (is_confirmed c.provider_completion_status)
    && not (is_archive_started c.archive_status)
    && is_signable c
    && can_start_demo i.now c.demo_signing_session

unfoldable pub demo_contract : StartDemo → DocumentArtifact → Contract → Contract
demo_contract i d c = record c {
  lifecycle_status = LifecycleStatus.customer_signing_in_progress;
  demo_signing_session = some (record {
    provider_envelope_reference = i.provider_envelope_reference;
    contract_version_id = i.version_id;
    customer_user_id = i.customer_user_id;
    canonical_document_sha256 = d.sha256;
    status = DemoSessionStatus.sent;
    started_at = i.now;
    expires_at = i.expires_at;
    completed_at = none;
    completion_event_reference = none;
  });
  revision = c.revision + 1;
}

unfoldable pub start_demo_signing : StartDemo → Store → Outcome WithVersion
unfolding demo_contract
start_demo_signing i s = elim (signable_document i.contract_id i.version_id s) [
  | none ↦ done none s
  | some (v, d) ↦ elim (find_one i.contract_id (is_ready_for_demo i) s.contracts) [
    | none ↦ done none s
    | some c ↦
        done
          (some (record {
            id = i.contract_id;
            contract = demo_contract i d c;
            version_id = i.version_id;
            version = v;
          }))
          (record s { contracts = insert i.contract_id (demo_contract i d c) s.contracts })
  ]
]

pub record CompleteDemo : Type 0 where
  pub contract_id : ℕ
  pub version_id : ℕ
  pub customer_user_id : ℕ
  pub provider_envelope_reference : String
  pub completion_event_reference : String
  pub now : ℕ

unfoldable pub is_running_demo : CompleteDemo → Option DemoSigningSession → Bool
is_running_demo i none = false
is_running_demo i (some d) =
    str_eq d.provider_envelope_reference i.provider_envelope_reference
    && d.contract_version_id == i.version_id
    && d.customer_user_id == i.customer_user_id
    && is_sent d.status
    && ltb i.now d.expires_at

unfoldable pub is_signing_demo : CompleteDemo → Contract → Bool
unfolding is_approved same_lifecycle is_running_demo
is_signing_demo i c =
    c.current_version_id == i.version_id
    && is_some_of c.customer_user_id i.customer_user_id
    && is_approved c.review_status
    && not (is_confirmed c.provider_completion_status)
    && not (is_archive_started c.archive_status)
    && same_lifecycle c.lifecycle_status LifecycleStatus.customer_signing_in_progress
    && is_running_demo i c.demo_signing_session

abbrev completed_session : CompleteDemo → Option DemoSigningSession → Option DemoSigningSession
completed_session i none = none
completed_session i (some d) = some (record d {
  status = DemoSessionStatus.completed;
  completed_at = some i.now;
  completion_event_reference = some i.completion_event_reference;
})

unfoldable pub signed_demo_contract : CompleteDemo → Contract → Contract
signed_demo_contract i c = record c {
  lifecycle_status = LifecycleStatus.provider_completed_evidence_pending;
  provider_completion_status = ProviderCompletionStatus.confirmed;
  archive_status = ArchiveStatus.pending;
  demo_signing_session = completed_session i c.demo_signing_session;
  revision = c.revision + 1;
}

unfoldable pub complete_demo_signing : CompleteDemo → Store → Outcome WithVersion
unfolding signed_demo_contract
complete_demo_signing i s = elim (find_one i.contract_id (is_signing_demo i) s.contracts) [
  | none ↦ done none s
  | some c ↦
      done (load_current s.versions i.contract_id (signed_demo_contract i c))
        (record s { contracts = insert i.contract_id (signed_demo_contract i c) s.contracts })
]

pub record StartProvider : Type 0 where
  pub contract_id : ℕ
  pub version_id : ℕ
  pub provider_key : String
  pub provider_envelope_reference : String
  pub now : ℕ
  pub expires_at : ℕ

unfoldable pub is_ready_for_provider : StartProvider → Contract → Bool
unfolding is_approved is_signable
is_ready_for_provider i c =
    c.current_version_id == i.version_id && is_approved c.review_status && is_signable c

unfoldable pub provider_contract : StartProvider → DocumentArtifact → Contract → Contract
provider_contract i d c = record c {
  lifecycle_status = LifecycleStatus.customer_signing_in_progress;
  provider_signing_session = some (record {
    provider_key = i.provider_key;
    provider_envelope_reference = i.provider_envelope_reference;
    contract_version_id = i.version_id;
    canonical_document_sha256 = d.sha256;
    status = ProviderSessionStatus.sent;
    started_at = i.now;
    expires_at = i.expires_at;
    completed_at = none;
    completion_event_reference = none;
    last_event_at = none;
  });
  revision = c.revision + 1;
}

unfoldable pub start_provider_signing : StartProvider → Store → Outcome WithVersion
unfolding provider_contract
start_provider_signing i s = elim (signable_document i.contract_id i.version_id s) [
  | none ↦ done none s
  | some (v, d) ↦ elim (find_one i.contract_id (is_ready_for_provider i) s.contracts) [
    | none ↦ done none s
    | some c ↦
        done
          (some (record {
            id = i.contract_id;
            contract = provider_contract i d c;
            version_id = i.version_id;
            version = v;
          }))
          (record s { contracts = insert i.contract_id (provider_contract i d c) s.contracts })
  ]
]
