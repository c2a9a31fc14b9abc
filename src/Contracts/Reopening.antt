-- ===== src/Contracts/Reopening.antt =====
-- What a webhook event does to a contract that has been completed.
use alsm_web_be.Base.{
  ℕ, ◌+◌, String, true, false, ◌≡◌, refl, some, lookup, insert, lookup-insert_self, found_one,
  arith,
}
use alsm_web_be.Contracts.Types.{LifecycleStatus, same_lifecycle, Contract}
use alsm_web_be.Contracts.Store.{Store, done, load_current}
use alsm_web_be.Contracts.Activation.{is_activation_candidate}
use alsm_web_be.Contracts.Envelopes.{
  EventType, has_envelope, has_session, event_lifecycle, webhook_update, updated_contract,
  update_provider_signing_status,
}

-- No event leaves a contract completed.
event_lifecycle-ne-completed :
    (e : EventType) → same_lifecycle (event_lifecycle e) LifecycleStatus.completed ≡ false
unfolding same_lifecycle event_lifecycle
event_lifecycle-ne-completed EventType.envelope_sent = refl
event_lifecycle-ne-completed _ = refl

updated-ne-candidate :
    (lead id : ℕ) (reference : String) (e : EventType) (event_reference : String) (at : ℕ)
    (c : Contract)
    → is_activation_candidate lead
        (updated_contract (webhook_update id reference e event_reference at) c)
      ≡ false
unfolding is_activation_candidate updated_contract webhook_update
updated-ne-candidate lead id reference e event_reference at c =
    ground (arith, event_lifecycle-ne-completed e)

-- Whatever the state of a contract, also one that is completed with verified evidence, a webhook
-- event for its envelope is applied: the stored contract then has the status of the event at the
-- next revision, and is no candidate for activation for any lead.
pub webhook_reopens :
    (lead id : ℕ) (reference : String) (e : EventType) (event_reference : String) (at : ℕ)
    (s : Store) (c : Contract)
    → lookup id s.contracts ≡ some c
    → has_envelope reference c.provider_signing_session ≡ true
    → (d : Contract) × (t : Store) × (update_provider_signing_status s.versions
          (webhook_update id reference e event_reference at)
          s
        ≡ done (load_current s.versions id d) t)
      × (lookup id t.contracts ≡ some d)
      × (d.lifecycle_status ≡ event_lifecycle e)
      × (d.revision ≡ c.revision + 1)
      × (is_activation_candidate lead d ≡ false)
unfolding update_provider_signing_status webhook_update updated_contract
webhook_reopens lead id reference e event_reference at s c found envelope =
    let i = webhook_update id reference e event_reference at in
    let d = updated_contract i c in
    (
      d,
      record s { contracts = insert id d s.contracts },
      rw (
        found_one s.contracts id (has_session i) c found envelope,
        update_provider_signing_status,
      ),
      lookup-insert_self id d s.contracts,
      refl,
      refl,
      updated-ne-candidate lead id reference e event_reference at c,
    )
