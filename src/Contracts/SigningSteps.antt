-- ===== src/Contracts/SigningSteps.antt =====
-- The calls that start and follow the signing take a step of the store.
use alsm_web_be.Base.{String, refl, Table, find_one-cases, Option-cases, inl, inr, arith}
use alsm_web_be.Contracts.Types.{ManifestBody, DocumentArtifact, Version, Contract}
use alsm_web_be.Contracts.Store.{Store}
use alsm_web_be.Contracts.Invariant.{IsConsistent}
use alsm_web_be.Contracts.Steps.{Continues, Step, stay, Ends, ended}
use alsm_web_be.Contracts.Writes.{SameEvidence, update_contract_only}
use alsm_web_be.Contracts.Signing.{
  StartDemo, signable_document, is_ready_for_demo, demo_contract, start_demo_signing, CompleteDemo,
  is_signing_demo, signed_demo_contract, complete_demo_signing, StartProvider,
  is_ready_for_provider, provider_contract, start_provider_signing,
}
use alsm_web_be.Contracts.Envelopes.{
  UpdateStatus, has_session, updated_contract, update_provider_signing_status,
}

demo-Continues :
    (i : StartDemo) (d : DocumentArtifact) (c : Contract) → Continues c (demo_contract i d c)
unfolding demo_contract
demo-Continues i d c = ground arith

signed_demo-Continues : (i : CompleteDemo) (c : Contract) → Continues c (signed_demo_contract i c)
unfolding signed_demo_contract
signed_demo-Continues i c = ground arith

provider-Continues :
    (i : StartProvider) (d : DocumentArtifact) (c : Contract)
    → Continues c (provider_contract i d c)
unfolding provider_contract
provider-Continues i d c = ground arith

updated-Continues : (i : UpdateStatus) (c : Contract) → Continues c (updated_contract i c)
unfolding updated_contract
updated-Continues i c = record {
  lead = refl;
  organization = refl;
  number = refl;
  creator = refl;
  request = refl;
  fingerprint = refl;
  revision = omega arith;
}

updated-SameEvidence : (i : UpdateStatus) (c : Contract) → SameEvidence c (updated_contract i c)
unfolding updated_contract
updated-SameEvidence i c = record { evidence = refl; archive = λ e. ground arith }

module _ (digest : ManifestBody → String) where
  pub start_demo_signing-Step :
      (i : StartDemo) (s : Store)
      → IsConsistent digest s
      → Ends (Step digest s) (start_demo_signing i s)
  unfolding start_demo_signing
  start_demo_signing-Step i s h =
      elim (Option-cases (signable_document i.contract_id i.version_id s)) [
        | inl missing ↦ rw (missing, start_demo_signing) (ended stay)
        | inr ((v, d), here) ↦
            elim (find_one-cases i.contract_id (is_ready_for_demo i) s.contracts) [
              | inl missed ↦ rw (here, missed, start_demo_signing) (ended stay)
              | inr (c, found, _, hit) ↦
                  rw (here, hit, start_demo_signing)
                    (ended (
                      update_contract_only digest s i.contract_id c (demo_contract i d c) h found
                        (demo-Continues i d c) refl refl refl
                        (record { evidence = refl; archive = λ e. e })))
            ]
      ]

  pub complete_demo_signing-Step :
      (i : CompleteDemo) (s : Store)
      → IsConsistent digest s
      → Ends (Step digest s) (complete_demo_signing i s)
  unfolding complete_demo_signing
  complete_demo_signing-Step i s h =
      elim (find_one-cases i.contract_id (is_signing_demo i) s.contracts) [
        | inl missed ↦ rw (missed, complete_demo_signing) (ended stay)
        | inr (c, found, _, hit) ↦
            rw (hit, complete_demo_signing)
              (ended (
                update_contract_only digest s i.contract_id c (signed_demo_contract i c) h found
                  (signed_demo-Continues i c) refl refl refl
                  (record { evidence = refl; archive = λ e. cc })))
      ]

  pub start_provider_signing-Step :
      (i : StartProvider) (s : Store)
      → IsConsistent digest s
      → Ends (Step digest s) (start_provider_signing i s)
  unfolding start_provider_signing
  start_provider_signing-Step i s h =
      elim (Option-cases (signable_document i.contract_id i.version_id s)) [
        | inl missing ↦ rw (missing, start_provider_signing) (ended stay)
        | inr ((v, d), here) ↦
            elim (find_one-cases i.contract_id (is_ready_for_provider i) s.contracts) [
              | inl missed ↦ rw (here, missed, start_provider_signing) (ended stay)
              | inr (c, found, _, hit) ↦
                  rw (here, hit, start_provider_signing)
                    (ended (
                      update_contract_only digest s i.contract_id c (provider_contract i d c) h
                        found (provider-Continues i d c) refl refl refl
                        (record { evidence = refl; archive = λ e. e })))
            ]
      ]

  pub update_provider_signing_status-Step :
      (committed : Table Version) (i : UpdateStatus) (s : Store)
      → IsConsistent digest s
      → Ends (Step digest s) (update_provider_signing_status committed i s)
  unfolding update_provider_signing_status
  update_provider_signing_status-Step committed i s h =
      elim (find_one-cases i.contract_id (has_session i) s.contracts) [
        | inl missed ↦ rw (missed, update_provider_signing_status) (ended stay)
        | inr (c, found, _, hit) ↦
            rw (hit, update_provider_signing_status)
              (ended (
                update_contract_only digest s i.contract_id c (updated_contract i c) h found
                  (updated-Continues i c) refl refl refl (updated-SameEvidence i c)))
      ]
