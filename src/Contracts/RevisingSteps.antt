-- ===== src/Contracts/RevisingSteps.antt =====
-- create_draft, revise and submit_for_review take a step of the store.
use alsm_web_be.Base.{
  ℕ, ◌+◌, is_some_text, String, false, not, ◌≡◌, refl, none, some, Table, lookup, find_one-cases,
  find_first, Option-cases, inl, inr, arith, str_eq,
}
use alsm_web_be.Contracts.Types.{ManifestBody, Version, Contract}
use alsm_web_be.Contracts.Store.{Store, is_reviewed, is_version_approved, is_valid_terms}
use alsm_web_be.Contracts.Invariant.{Preserves, IsReviewed, IsConsistent}
use alsm_web_be.Contracts.Steps.{Continues, Step, stay, Ends, ended, aborted, Ends-if}
use alsm_web_be.Contracts.Writes.{update_both, start_version, continuing}
use alsm_web_be.Contracts.Drafting.{
  CreateDraft, draft_version, draft_contract, version_key_taken, contract_key_taken, is_same_create,
  has_contract_strings, insert_draft, replay_draft, create_draft,
}
use alsm_web_be.Contracts.Revising.{
  Revise, is_same_revision, is_revisable, is_own, latest_number, revised_version, revised_contract,
  write_revision, replay_revision, revise, SubmitForReview, is_submittable, is_submitted_version,
  submitted_contract, submitted_version, submit_for_review,
}

submitted-Preserves : (now : ℕ) (v : Version) → Preserves v (submitted_version now v)
unfolding submitted_version
submitted-Preserves now v = record {
  owner = refl;
  number = refl;
  terms = refl;
  canonical = λ d h. h;
}

submitted-Continues : (i : SubmitForReview) (c : Contract) → Continues c (submitted_contract i c)
unfolding submitted_contract
submitted-Continues i c = ground arith

fresh_version :
    (w k n : ℕ) (t : Table Version) → version_key_taken w k n t ≡ false → lookup w t ≡ none
unfolding version_key_taken
fresh_version w k n t h = ground arith

pub fresh_contract :
    (k : ℕ) (number : String) (t : Table Contract)
    → contract_key_taken k number t ≡ false
    → lookup k t ≡ none
unfolding contract_key_taken
fresh_contract k number t h = ground arith

-- Nobody has reviewed a contract whose review starts anew.
unreviewed :
    (d : Contract)
    → d.reviewed_by_user_id ≡ none
    → is_reviewed d.review_status ≡ false
    → IsReviewed d
unreviewed d e f = record { four_eyes = λ r h. cc; named = λ h. cc }

revised-Continues : (i : Revise) (c : Contract) → Continues c (revised_contract i c)
unfolding revised_contract
revised-Continues i c = ground arith

module _ (digest : ManifestBody → String) (committed : Table Version) where
  pub submit_for_review-Step :
      (i : SubmitForReview) (s : Store)
      → IsConsistent digest s
      → Ends (Step digest s) (submit_for_review committed i s)
  unfolding submit_for_review is_reviewed is_version_approved
  submit_for_review-Step i s h =
      elim (find_one-cases i.contract_id (is_submittable i) s.contracts) [
        | inl missed ↦ rw (missed, submit_for_review) (ended stay)
        | inr (c, found, _, hit) ↦
            elim (find_one-cases c.current_version_id (is_submitted_version i) s.versions) [
              | inl missed ↦ rw (hit, missed, submit_for_review) aborted
              | inr (v, there, fits, hit') ↦
                  rw (hit, hit', submit_for_review)
                    (ended (
                      update_both digest s i.contract_id c (submitted_contract i c) v
                        (submitted_version i.now v) h found there (ground arith)
                        (submitted-Preserves i.now v) (submitted-Continues i c) refl
                        (record { evidence = refl; archive = λ e. e }) refl (λ e. cc)
                        (record {
                          four_eyes = (h.contracts i.contract_id c found).reviewed.four_eyes;
                          named = λ e. cc;
                        })))
            ]
      ]

  replay_draft-Step :
      (i : CreateDraft) (id : ℕ) (c : Contract) (s : Store)
      → Ends (Step digest s) (replay_draft i id c s)
  unfolding replay_draft
  replay_draft-Step i id c s = elim (Option-cases (lookup c.current_version_id s.versions)) [
    | inl missing ↦ rw (missing, replay_draft) aborted
    | inr (v, found) ↦
        rw (found, replay_draft)
          (Ends-if (Step digest s) (str_eq c.create_request_fingerprint i.request_fingerprint) _ _
            (λ _. ended stay) (λ _. aborted))
  ]

  insert_draft-Step :
      (i : CreateDraft) (s : Store)
      → IsConsistent digest s
      → Ends (Step digest s) (insert_draft i s)
  unfolding insert_draft is_reviewed is_version_approved
  insert_draft-Step i s h =
      Ends-if (Step digest s) (not (is_valid_terms i.terms)) _ _ (λ _. aborted)
        (λ _.
          Ends-if (Step digest s) (version_key_taken i.version_id i.contract_id 1 s.versions) _ _
            (λ _. aborted)
            (λ free.
              Ends-if (Step digest s) (not (has_contract_strings i)) _ _ (λ _. aborted)
                (λ _.
                  Ends-if (Step digest s)
                    (contract_key_taken i.contract_id i.contract_number s.contracts) _ _
                    (λ _. aborted)
                    (λ new. ended (
                      start_version digest s i.contract_id i.version_id (draft_contract i)
                        (draft_version i) h (fresh_version _ _ _ _ free) refl refl refl (λ e. cc)
                        (unreviewed (draft_contract i) refl refl)
                        (record { bound = λ m e. cc; archived = λ e. cc })
                        (λ old e.
                          cc (fresh_contract i.contract_id i.contract_number s.contracts new)))))))

  pub create_draft-Step :
      (i : CreateDraft) (s : Store)
      → IsConsistent digest s
      → Ends (Step digest s) (create_draft i s)
  unfolding create_draft
  create_draft-Step i s h = elim (Option-cases (find_first (is_same_create i) s.contracts)) [
    | inl absent ↦ rw (absent, create_draft) (insert_draft-Step i s h)
    | inr ((id, c), hit) ↦ rw (hit, create_draft) (replay_draft-Step i id c s)
  ]

  write_revision-Step :
      (i : Revise) (c : Contract) (latest : ℕ) (s : Store)
      → IsConsistent digest s
      → lookup i.contract_id s.contracts ≡ some c
      → Ends (Step digest s) (write_revision i c latest s)
  unfolding write_revision is_reviewed is_version_approved
  write_revision-Step i c latest s h found =
      let e = (h.contracts i.contract_id c found).evidenced in
      Ends-if (Step digest s) (not (is_valid_terms i.terms)) _ _ (λ _. aborted)
        (λ _.
          Ends-if (Step digest s)
            (version_key_taken i.version_id i.contract_id (latest + 1) s.versions) _ _
            (λ _. aborted)
            (λ free. ended (
              start_version digest s i.contract_id i.version_id (revised_contract i c)
                (revised_version i latest) h (fresh_version _ _ _ _ free) refl refl refl (λ e. cc)
                (unreviewed (revised_contract i c) refl refl)
                (record { bound = e.bound; archived = e.archived })
                (continuing digest s i.contract_id c (revised_contract i c) found
                  (revised-Continues i c)))))

  replay_revision-Step :
      (i : Revise) (v : Version) (s : Store) → Ends (Step digest s) (replay_revision i v s)
  unfolding replay_revision
  replay_revision-Step i v s =
      Ends-if (Step digest s) (is_some_text v.revision_request_fingerprint i.request_fingerprint) _
        _
        (λ _. elim (find_one-cases i.contract_id (is_own i) s.contracts) [
          | inl missed ↦ rw missed (ended stay)
          | inr (c, _, _, hit) ↦ elim (Option-cases (lookup c.current_version_id s.versions)) [
            | inl missing ↦ rw (hit, missing) (ended stay)
            | inr (w, there) ↦ rw (hit, there) (ended stay)
          ]
        ])
        (λ _. aborted)

  pub revise-Step :
      (i : Revise) (s : Store) → IsConsistent digest s → Ends (Step digest s) (revise i s)
  unfolding revise
  revise-Step i s h = elim (Option-cases (find_first (is_same_revision i) s.versions)) [
    | inr ((k, v), hit) ↦ rw (hit, revise) (replay_revision-Step i v s)
    | inl absent ↦ elim (find_one-cases i.contract_id (is_revisable i) s.contracts) [
      | inl missed ↦ rw (absent, missed, revise) (ended stay)
      | inr (c, found, _, hit) ↦ elim (Option-cases (latest_number i.contract_id s.versions)) [
        | inl missing ↦ rw (absent, hit, missing, revise) (ended stay)
        | inr (latest, here) ↦
            rw (absent, hit, here, revise) (write_revision-Step i c latest s h found)
      ]
    ]
  ]
