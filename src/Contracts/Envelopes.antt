-- ===== src/Contracts/Envelopes.antt =====
-- updateProviderSigningStatus and findByProviderEnvelopeReference of
-- mongo-contract-aggregate.repository.ts, and what contract-signing-webhook.service.ts asks of an event.
use alsm_web_be.Base.{
  ℕ, ◌+◌, String, Bool, false, ◌||◌, Option, none, some, Table, insert, find_one, find_first,
  str_eq, is_truthy, if◌then◌else◌,
}
use alsm_web_be.Contracts.Types.{
  LifecycleStatus, ProviderCompletionStatus, ArchiveStatus, DemoSigningSession,
  ProviderSigningSession, ProviderSessionStatus, Version, Contract,
}
use alsm_web_be.Contracts.Store.{Store, WithVersion, Outcome, done, load_current}
use alsm_web_be.Contracts.Evidence.{is_confirmed}

pub record UpdateStatus : Type 0 where
  pub contract_id : ℕ
  pub provider_envelope_reference : String
  pub status : LifecycleStatus
  pub provider_completion_status : Option ProviderCompletionStatus
  pub event_reference : Option String
  pub now : ℕ

unfoldable pub has_envelope : String → Option ProviderSigningSession → Bool
has_envelope reference none = false
has_envelope reference (some p) = str_eq p.provider_envelope_reference reference

-- Whether the update confirms the completion of the envelope.
abbrev pub confirms : Option ProviderCompletionStatus → Bool
confirms none = false
confirms (some p) = is_confirmed p

-- A given string that is not empty replaces the stored one.
abbrev text_or : Option String → Option String → Option String
text_or new old = if is_truthy new then new else old

abbrev updated_session : UpdateStatus → ProviderSigningSession → ProviderSigningSession
updated_session i p = record p {
  status =
      if confirms i.provider_completion_status then ProviderSessionStatus.completed else p.status;
  completed_at = if confirms i.provider_completion_status then some i.now else p.completed_at;
  completion_event_reference = text_or i.event_reference p.completion_event_reference;
  last_event_at = some i.now;
}

abbrev completion_or :
    Option ProviderCompletionStatus → ProviderCompletionStatus → ProviderCompletionStatus
completion_or none old = old
completion_or (some p) old = p

abbrev update_session : UpdateStatus → Option ProviderSigningSession → Option ProviderSigningSession
update_session i none = none
update_session i (some p) = some (updated_session i p)

unfoldable pub updated_contract : UpdateStatus → Contract → Contract
updated_contract i c = record c {
  lifecycle_status = i.status;
  provider_completion_status =
      completion_or i.provider_completion_status c.provider_completion_status;
  archive_status =
      if confirms i.provider_completion_status then ArchiveStatus.pending else c.archive_status;
  provider_signing_session = update_session i c.provider_signing_session;
  revision = c.revision + 1;
}

abbrev pub has_session : UpdateStatus → Contract → Bool
has_session i c = has_envelope i.provider_envelope_reference c.provider_signing_session

-- `committed` is the collection of versions outside the transaction, which `loadCurrent` reads.
unfoldable pub update_provider_signing_status :
    Table Version → UpdateStatus → Store → Outcome WithVersion
unfolding updated_contract
update_provider_signing_status committed i s =
    elim (find_one i.contract_id (has_session i) s.contracts) [
      | none ↦ done none s
      | some c ↦
          done (load_current committed i.contract_id (updated_contract i c))
            (record s { contracts = insert i.contract_id (updated_contract i c) s.contracts })
    ]

unfoldable pub has_demo_envelope : String → Option DemoSigningSession → Bool
has_demo_envelope reference none = false
has_demo_envelope reference (some d) = str_eq d.provider_envelope_reference reference

unfoldable pub find_by_provider_envelope_reference : String → Store → Option WithVersion
unfolding has_envelope has_demo_envelope load_current
find_by_provider_envelope_reference reference s =
    elim (find_first
      (λ k c.
        has_envelope reference c.provider_signing_session
        || has_demo_envelope reference c.demo_signing_session)
      s.contracts) [ none ↦ none | some (id, c) ↦ load_current s.versions id c ]

-- VerifiedSigningProviderEvent['eventType'].
pub data EventType : Type 0 where
  envelope_sent signer_viewed signer_completed envelope_completed : EventType
  signer_declined envelope_cancelled envelope_expired : EventType

-- `mapEventToLifecycleStatus`.
unfoldable pub event_lifecycle : EventType → LifecycleStatus
event_lifecycle envelope_sent = LifecycleStatus.sent_to_customer
event_lifecycle signer_viewed = LifecycleStatus.customer_viewed
event_lifecycle signer_completed = LifecycleStatus.customer_partially_signed
event_lifecycle envelope_completed = LifecycleStatus.provider_completed_evidence_pending
event_lifecycle signer_declined = LifecycleStatus.rejected
event_lifecycle envelope_cancelled = LifecycleStatus.cancelled
event_lifecycle envelope_expired = LifecycleStatus.expired

abbrev completion_of : EventType → Option ProviderCompletionStatus
completion_of envelope_completed = some ProviderCompletionStatus.confirmed
completion_of _ = none

-- The update that `handleCallback` makes for a verified event.
unfoldable pub webhook_update : ℕ → String → EventType → String → ℕ → UpdateStatus
unfolding event_lifecycle
webhook_update id reference event event_reference occurred_at = record {
  contract_id = id;
  provider_envelope_reference = reference;
  status = event_lifecycle event;
  provider_completion_status = completion_of event;
  event_reference = some event_reference;
  now = occurred_at;
}
