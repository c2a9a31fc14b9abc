-- ===== src/Contracts/Idempotence.antt =====
-- A repeated call changes nothing: creation by its key, and evidence by its digest.
use mathlib.Core.Path.{fun_ext}
use alsm_web_be.Base.{
  ℕ, Bool, true, false, ◌≡◌, none, some, lookup, insert, lookup-insert_self, find_first,
  find_first-insert, Option-cases, str_eq, str_eq_iff, inl, inr, arith, if◌then◌else◌,
}
use alsm_web_be.Contracts.Types.{Contract}
use alsm_web_be.Contracts.Store.{Store, done, raise, idempotency_key_reused}
use alsm_web_be.Contracts.Drafting.{
  CreateDraft, Replayed, draft_version, draft_contract, contract_key_taken, is_same_create,
  insert_draft, replay_draft, create_draft,
}
use alsm_web_be.Contracts.RevisingSteps.{fresh_contract}

-- Another attempt with the same key.
abbrev pub SameRequest : CreateDraft → CreateDraft → Type 0
SameRequest i j =
    (j.lead_id ≡ i.lead_id)
    × (j.created_by_user_id ≡ i.created_by_user_id)
    × (j.request_id ≡ i.request_id)

is_same_create-draft :
    (i j : CreateDraft) → SameRequest i j → is_same_create j i.contract_id (draft_contract i) ≡ true
unfolding is_same_create draft_contract
is_same_create-draft i j same = ground (arith, str_eq_iff i.request_id j.request_id)

abbrev drafted : CreateDraft → Store → Store
drafted i s = record s {
  contracts = insert i.contract_id (draft_contract i) s.contracts;
  versions = insert i.version_id (draft_version i) s.versions;
}

abbrev answer : CreateDraft → Bool → Replayed
answer i again = record {
  result = record {
    id = i.contract_id;
    contract = draft_contract i;
    version_id = i.version_id;
    version = draft_version i;
  };
  replayed = again;
}

-- A creation that succeeds for the first time has found no contract with its key, nor with its id.
insert_draft-done :
    (i : CreateDraft) (s : Store) (r : Replayed) (t : Store)
    → insert_draft i s ≡ done (some r) t
    → (contract_key_taken i.contract_id i.contract_number s.contracts ≡ false)
      × (done (some (answer i false)) (drafted i s) ≡ done (some r) t)
unfolding insert_draft
insert_draft-done i s r t e = ground arith

same_key : (i j : CreateDraft) → SameRequest i j → is_same_create j ≡ is_same_create i
unfolding is_same_create
same_key i j same = fun_ext (λ k. fun_ext (λ c. rw (same.0, same.1, same.2)))

-- What a repeated creation finds in a store where the first has succeeded.
repeat_draft :
    (i j : CreateDraft) (s : Store)
    → SameRequest i j
    → find_first (is_same_create i) s.contracts ≡ none
    → lookup i.contract_id s.contracts ≡ none
    → create_draft j (drafted i s) ≡ (
        if str_eq i.request_fingerprint j.request_fingerprint
        then done (some (answer i true)) (drafted i s)
        else raise idempotency_key_reused)
unfolding create_draft replay_draft draft_contract
repeat_draft i j s same absent fresh =
    let none_before : find_first (is_same_create j) s.contracts ≡ none =
      rw (same_key i j same) absent in
    rw (
      find_first-insert (is_same_create j) i.contract_id (draft_contract i) s.contracts none_before
          fresh (is_same_create-draft i j same),
      create_draft,
      lookup-insert_self i.version_id (draft_version i) s.versions,
      replay_draft,
    )

replay_draft-replayed :
    (i : CreateDraft) (id : ℕ) (c : Contract) (s : Store) (r : Replayed) (t : Store)
    → replay_draft i id c s ≡ done (some r) t
    → r.replayed ≡ true
unfolding replay_draft
replay_draft-replayed i id c s r t e = ground arith

-- After a creation that was not a replay, a creation with the same lead, creator and key is
-- answered with the first result, marked as a replay, and changes nothing if its fingerprint is
-- the same; with another fingerprint it fails. Its own ids and terms do not matter.
pub create_draft-again :
    (i j : CreateDraft) (s : Store) (r : Replayed) (t : Store)
    → create_draft i s ≡ done (some r) t
    → r.replayed ≡ false
    → SameRequest i j
    → create_draft j t ≡ (
        if str_eq i.request_fingerprint j.request_fingerprint
        then done (some (record r { replayed = true })) t
        else raise idempotency_key_reused)
unfolding create_draft
create_draft-again i j s r t e first same =
    elim (Option-cases (find_first (is_same_create i) s.contracts)) [
      | inl absent ↦
          let (free, made) = insert_draft-done i s r t (rw (absent, create_draft) at e) in
          let rest =
            repeat_draft i j s same absent
              (fresh_contract i.contract_id i.contract_number s.contracts free) in
          let eqr : r ≡ answer i false = cc in let eqt : t ≡ drafted i s = cc in rw (eqt, eqr) rest
      | inr ((id, c), hit) ↦
          let replay : replay_draft i id c s ≡ done (some r) t = rw (hit, create_draft) at e in
          cc (replay_draft-replayed i id c s r t replay)
    ]
