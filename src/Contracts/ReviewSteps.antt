-- ===== src/Contracts/ReviewSteps.antt =====
-- review, respondByCustomer and markCustomerViewed take a step of the store.
use alsm_web_be.Base.{
  ℕ, ◌==◌, String, true, false, not, ◌≡◌, refl, ◌≢◌, some, Table, lookup, find_one-cases,
  Option-cases, ==_iff, inl, inr, arith, ◌&&◌, is_truthy, is_truthy_trimmed,
}
use alsm_web_be.Contracts.Types.{
  ManifestBody, Version, Contract, ReviewAction, approve, return, reject, CustomerAction,
  request_changes, decline,
}
use alsm_web_be.Contracts.Store.{
  Store, is_reviewed, is_version_approved, is_approved, has_active_grant, load_current,
}
use alsm_web_be.Contracts.Invariant.{mirror, Preserves, IsReviewed, HasTemplate, IsConsistent}
use alsm_web_be.Contracts.Steps.{Continues, Step, stay, Ends, ended, aborted, Ends-if}
use alsm_web_be.Contracts.Writes.{update_both, update_contract_only}
use alsm_web_be.Contracts.Review.{
  Review, is_under_review, is_version_in_review, is_approve, with_approval, version_result,
  review_result, reviewed_contract, reviewed_version, write_review, review, Respond, is_answerable,
  is_own_approved, answered_review, answered_version_review, answered_contract, answered_version,
  respond_by_customer,
}
use alsm_web_be.Contracts.Viewing.{
  MarkViewed, is_customers, is_unseen, same_email, viewed_contract, write_viewed,
  mark_customer_viewed,
}

pub reviewed-Preserves : (i : Review) (v : Version) → Preserves v (reviewed_version i v)
unfolding reviewed_version
reviewed-Preserves i v = by_action i.action i v
  where
    by_action :
        (a : ReviewAction) (i : Review) (v : Version)
        → Preserves v (record (with_approval a i v) { review_status = version_result i.action })
    by_action approve i v = record {
      owner = refl;
      number = refl;
      terms = refl;
      canonical = λ d h. h;
    }
    by_action return i v = record {
      owner = refl;
      number = refl;
      terms = refl;
      canonical = λ d h. h;
    }
    by_action reject i v = record {
      owner = refl;
      number = refl;
      terms = refl;
      canonical = λ d h. h;
    }

reviewed-Continues : (i : Review) (c : Contract) → Continues c (reviewed_contract i c)
unfolding reviewed_contract
reviewed-Continues i c = ground arith

version_result-mirror : (a : ReviewAction) → version_result a ≡ mirror (review_result a)
version_result-mirror approve = refl
version_result-mirror return = refl
version_result-mirror reject = refl

-- Only an approval makes a version approved, and it asks for a template.
reviewed-HasTemplate :
    (i : Review) (v : Version)
    → (is_approve i.action && not (is_truthy v.terms.approved_template_version_id)) ≡ false
    → HasTemplate (reviewed_version i v)
unfolding reviewed_version is_version_approved
reviewed-HasTemplate i v h e = ground arith

module _ (digest : ManifestBody → String) where
  write_review-Step :
      (i : Review) (c : Contract) (v : Version) (s : Store)
      → IsConsistent digest s
      → lookup i.contract_id s.contracts ≡ some c
      → lookup c.current_version_id s.versions ≡ some v
      → v.contract_id ≡ i.contract_id
      → c.created_by_user_id ≢ i.actor_user_id
      → Ends (Step digest s) (write_review i c v s)
  unfolding write_review
  write_review-Step i c v s h found there owned other =
      Ends-if (Step digest s)
        (is_approve i.action && not (is_truthy v.terms.approved_template_version_id)) _ _
        (λ _. aborted)
        (λ template.
          Ends-if (Step digest s) (not (is_approve i.action) && not (is_truthy_trimmed i.reason)) _
            _ (λ _. aborted)
            (λ _.
              Ends-if (Step digest s) (not (is_version_in_review v.review_status)) _ _
                (λ _. aborted)
                (λ _. ended (
                  update_both digest s i.contract_id c (reviewed_contract i c) v
                    (reviewed_version i v) h found there owned (reviewed-Preserves i v)
                    (reviewed-Continues i c) refl (record { evidence = refl; archive = λ e. e })
                    (version_result-mirror i.action) (reviewed-HasTemplate i v template)
                    (record { four_eyes = λ r e p. ground arith; named = λ e. refl })))))

  pub review-Step :
      (i : Review) (s : Store) → IsConsistent digest s → Ends (Step digest s) (review i s)
  unfolding review
  review-Step i s h = elim (find_one-cases i.contract_id (is_under_review i) s.contracts) [
    | inl missed ↦ rw (missed, review) (ended stay)
    | inr (c, found, _, hit) ↦
        rw (hit, review)
          (Ends-if (Step digest s) (c.created_by_user_id == i.actor_user_id) _ _ (λ _. ended stay)
            (λ other.
              elim (find_one-cases c.current_version_id (λ v. v.contract_id == i.contract_id)
                s.versions) [
                  | inl missed ↦ rw missed (ended stay)
                  | inr (v, there, owned, hit') ↦ rw hit' (
                      write_review-Step i c v s h found there ((==_iff _ _).0 owned) (ground arith))
                ]))
  ]

answered-Preserves : (i : Respond) (v : Version) → Preserves v (answered_version i v)
unfolding answered_version
answered-Preserves i v = record { owner = refl; number = refl; terms = refl; canonical = λ d h. h }

answered-Continues : (i : Respond) (c : Contract) → Continues c (answered_contract i c)
unfolding answered_contract
answered-Continues i c = ground arith

answered-mirror : (a : CustomerAction) → answered_version_review a ≡ mirror (answered_review a)
answered-mirror request_changes = refl
answered-mirror decline = refl

answered-HasTemplate : (i : Respond) (v : Version) → HasTemplate (answered_version i v)
unfolding answered_version is_version_approved
answered-HasTemplate i v e = ground arith

-- A contract that can be answered was approved, so it names its reviewer.
answered-IsReviewed :
    (i : Respond) (c : Contract)
    → IsReviewed c
    → is_answerable i c ≡ true
    → IsReviewed (answered_contract i c)
unfolding answered_contract is_answerable is_approved is_reviewed
answered-IsReviewed i c r h = record {
  four_eyes = r.four_eyes;
  named = λ e. r.named (ground arith);
}

viewed-Continues : (u : ℕ) (c : Contract) → Continues c (viewed_contract u c)
unfolding viewed_contract
viewed-Continues u c = ground arith

module _ (digest : ManifestBody → String) where
  pub respond_by_customer-Step :
      (i : Respond) (s : Store)
      → IsConsistent digest s
      → Ends (Step digest s) (respond_by_customer i s)
  unfolding respond_by_customer answered_contract answered_version
  respond_by_customer-Step i s h =
      elim (find_one-cases i.contract_id (is_answerable i) s.contracts) [
        | inl missed ↦ rw (missed, respond_by_customer) (ended stay)
        | inr (c, found, fits, hit) ↦
            rw (hit, respond_by_customer)
              (Ends-if (Step digest s)
                (not (has_active_grant c.lead_id i.customer_user_id s.grants)) _ _ (λ _. ended stay)
                (λ _. elim (find_one-cases c.current_version_id (is_own_approved i) s.versions) [
                  | inl missed ↦ rw missed (ended stay)
                  | inr (v, there, owned, hit') ↦ rw hit' (
                      ended (
                        update_both digest s i.contract_id c (answered_contract i c) v
                          (answered_version i v) h found there (ground arith)
                          (answered-Preserves i v) (answered-Continues i c) refl
                          (record { evidence = refl; archive = λ e. e }) (answered-mirror i.action)
                          (answered-HasTemplate i v)
                          (answered-IsReviewed i c (h.contracts i.contract_id c found).reviewed
                            fits)))
                ]))
      ]

  write_viewed-Step :
      (committed : Table Version) (i : MarkViewed) (c : Contract) (s : Store)
      → IsConsistent digest s
      → lookup i.contract_id s.contracts ≡ some c
      → Ends (Step digest s) (write_viewed committed i c s)
  unfolding write_viewed
  write_viewed-Step committed i c s h found =
      let step =
        update_contract_only digest s i.contract_id c (viewed_contract i.customer_user_id c) h found
          (viewed-Continues i.customer_user_id c) refl refl refl
          (record { evidence = refl; archive = λ e. e }) in
      elim (Option-cases
        (load_current committed i.contract_id (viewed_contract i.customer_user_id c))) [
          | inl missing ↦ rw (missing, write_viewed) (ended step)
          | inr (w, loaded) ↦ rw (loaded, write_viewed) (ended step)
        ]

  pub mark_customer_viewed-Step :
      (lower_case : String → String) (committed : Table Version) (i : MarkViewed) (s : Store)
      → IsConsistent digest s
      → Ends (Step digest s) (mark_customer_viewed lower_case committed i s)
  unfolding mark_customer_viewed
  mark_customer_viewed-Step lower_case committed i s h =
      elim (find_one-cases i.contract_id (is_customers i) s.contracts) [
        | inl missed ↦ rw (missed, mark_customer_viewed) (ended stay)
        | inr (c, found, _, hit) ↦
            rw (hit, mark_customer_viewed)
              (Ends-if (Step digest s)
                (not (has_active_grant c.lead_id i.customer_user_id s.grants)) _ _ (λ _. ended stay)
                (λ _. elim (Option-cases (load_current committed i.contract_id c)) [
                  | inl missing ↦ rw missing (ended stay)
                  | inr (w, loaded) ↦ rw loaded (
                      Ends-if (Step digest s)
                        (not
                          (same_email lower_case w.version.terms.customer_email i.customer_email))
                        _ _ (λ _. ended stay)
                        (λ _.
                          Ends-if (Step digest s) (not (is_unseen c && is_approved c.review_status))
                            _ _ (λ _. ended stay) (λ _. write_viewed-Step committed i c s h found)))
                ]))
      ]
