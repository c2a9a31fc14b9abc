-- ===== src/Validation/Transitions.antt =====
-- What a review may do to the stored findings.
use alsm_web_be.Base.{
  ℕ, true, not, ◌&&◌, ◌||◌, ◌≡◌, refl, sym, ◌∙◌, Option, none, some, String, lookup, insert,
  find_one-cases, lookup-insert, exists_value, arith, Bool-cases, Option-cases, inl, inr, ◌⊎◌, ◌==◌,
  ==_iff,
}
use alsm_web_be.Validation.Findings.{
  FindingStatus, same_finding_status, Finding, Findings, is_human_review_target_status,
  is_allowed_human_review_transition, is_in_scope, is_expected, find_finding, reviewed,
  ReviewOutcome, review_finding,
}
use alsm_web_be.Validation.Review.{
  ReviewCommand, ReviewError, is_note_too_long, Result, ok, raise, trimmed_note, is_not_applicable,
  normalize_review_note, review_input, answered, write_review, review_found,
  review_validation_finding,
}

-- A review by the user of the command, along the table, with a note where one is required.
pub record IsReviewed (i : ReviewCommand) (f g : Finding) : Type 0 where
  pub allowed : is_allowed_human_review_transition f.status g.status ≡ true
  pub by : g.reviewed_by ≡ some i.user_id
  pub in_scope : is_in_scope i.validation_run_id i.project_id i.organization_id f ≡ true
  pub noted : (not (is_not_applicable g.status) || exists_value g.review_note) ≡ true

-- Every finding is there afterwards, untouched or reviewed.
abbrev pub IsForward : ReviewCommand → Findings → Findings → Type 0
IsForward i findings after =
    (id : ℕ) (f : Finding)
    → lookup id findings ≡ some f
    → (g : Finding) × (lookup id after ≡ some g) × ((g ≡ f) ⊎ IsReviewed i f g)

IsForward-self : (i : ReviewCommand) (findings : Findings) → IsForward i findings findings
IsForward-self i findings id f there = (f, there, inl refl)

IsForward-insert :
    (i : ReviewCommand) (k : ℕ) (f v : Finding) (findings : Findings)
    → lookup k findings ≡ some f
    → IsReviewed i f v
    → IsForward i findings (insert k v findings)
IsForward-insert i k f v findings there s id m here = elim (Bool-cases (k == id)) [
  | inl same ↦
      let e : k ≡ id = (==_iff k id).0 same in
      let known : some f ≡ some m = sym there ∙ rw e here in
      let eq : f ≡ m = cc in (v, rw (lookup-insert k id v findings, same), inr (rw (← eq) s))
  | inr other ↦ (m, rw (lookup-insert k id v findings, other) here, inl refl)
]

same_code : (a b : FindingStatus) → same_finding_status a b ≡ true → a ≡ b
same_code a b h = ground arith

answered_findings : (r : ReviewOutcome × Findings) → (answered r).1 ≡ r.1
answered_findings (ReviewOutcome.updated f, findings) = refl
answered_findings (ReviewOutcome.conflict, findings) = refl
answered_findings (ReviewOutcome.not_found, findings) = refl

write-IsForward :
    (now : ℕ) (i : ReviewCommand) (f : Finding) (note : Option String) (findings : Findings)
    → is_allowed_human_review_transition f.status i.status ≡ true
    → (not (is_not_applicable i.status) || exists_value note) ≡ true
    → IsForward i findings (review_finding (review_input now i f note) findings).1
unfolding review_finding reviewed
write-IsForward now i f note findings fine noted =
    elim (find_one-cases i.finding_id (λ g. is_expected (review_input now i f note) g) findings) [
      | inl missed ↦
          elim (Option-cases (
            find_finding i.finding_id i.validation_run_id i.project_id i.organization_id
              findings)) [
                | inl gone ↦ rw (review_finding, missed, gone) (IsForward-self i findings)
                | inr (g, moved) ↦ rw (review_finding, missed, moved) (IsForward-self i findings)
              ]
      | inr (g, there, fits, hit) ↦
          let same : g.status ≡ f.status = same_code g.status f.status (ground (arith, fits)) in
          rw (review_finding, hit)
            (IsForward-insert i i.finding_id g (reviewed (review_input now i f note) g) findings
              there
              (record {
                allowed = rw same fine;
                by = refl;
                in_scope = ground (arith, fits);
                noted = noted;
              }))
    ]

normal_noted :
    (note : Option String) (status : FindingStatus) (kept : Option String)
    → normalize_review_note note status ≡ ok kept
    → (not (is_not_applicable status) || exists_value kept) ≡ true
unfolding normalize_review_note
normal_noted note status kept e = elim (Bool-cases (is_note_too_long note)) [
  | inl long ↦
      let bad : raise ReviewError.note_too_long ≡ ok kept = rw (long, normalize_review_note) at e in
      cc
  | inr short ↦
      elim (Bool-cases (is_not_applicable status && not (exists_value (trimmed_note note)))) [
        | inl lacking ↦
            let bad : raise ReviewError.note_required ≡ ok kept =
              rw (short, lacking, normalize_review_note) at e in
            cc
        | inr fine ↦
            let known : ok (trimmed_note note) ≡ ok kept =
              rw (short, fine, normalize_review_note) at e in
            let eq : trimmed_note note ≡ kept = cc in rw (← eq) (ground (arith, fine))
      ]
]

write_review-IsForward :
    (now : ℕ) (i : ReviewCommand) (f : Finding) (findings : Findings) (n : Result (Option String))
    → normalize_review_note i.review_note i.status ≡ n
    → is_allowed_human_review_transition f.status i.status ≡ true
    → IsForward i findings (write_review now i f n findings).1
write_review-IsForward now i f findings (raise e) normal fine = IsForward-self i findings
write_review-IsForward now i f findings (ok note) normal fine =
    rw (answered_findings (review_finding (review_input now i f note) findings))
      (write-IsForward now i f note findings fine (normal_noted i.review_note i.status note normal))

review_found-IsForward :
    (now : ℕ) (i : ReviewCommand) (job : ℕ) (f : Finding) (findings : Findings)
    → IsForward i findings (review_found now i job f findings).1
unfolding review_found
review_found-IsForward now i job f findings =
    elim (Bool-cases (
      not (
        is_in_scope i.validation_run_id i.project_id i.organization_id f
        && f.conversion_job_id == job))) [
          | inl out ↦ rw (out, review_found) (IsForward-self i findings)
          | inr inside ↦ elim (Bool-cases (is_human_review_target_status i.status)) [
            | inr bad ↦ rw (inside, bad, review_found) (IsForward-self i findings)
            | inl target ↦
                elim (Bool-cases (is_allowed_human_review_transition f.status i.status)) [
                  | inr bad ↦ rw (inside, target, bad, review_found) (IsForward-self i findings)
                  | inl fine ↦
                      rw (inside, target, fine, review_found)
                        (write_review-IsForward now i f findings
                          (normalize_review_note i.review_note i.status) refl fine)
                ]
          ]
        ]

-- A review, whatever its input and its result and however old the state from which it read the
-- finding, leaves every stored finding there; it changes one only within its run, project and
-- organization, from the status stored at the time of the write along the table of transitions,
-- in the name of its user, and to not applicable only with a note.
pub review_validation_finding-IsForward :
    (now : ℕ) (i : ReviewCommand) (run : Option ℕ) (seen findings : Findings)
    → IsForward i findings (review_validation_finding now i run seen findings).1
unfolding review_validation_finding
review_validation_finding-IsForward now i none seen findings = IsForward-self i findings
review_validation_finding-IsForward now i (some job) seen findings =
    elim (Option-cases
      (find_finding i.finding_id i.validation_run_id i.project_id i.organization_id seen)) [
        | inl missed ↦ rw (missed, review_validation_finding) (IsForward-self i findings)
        | inr (f, hit) ↦
            rw (hit, review_validation_finding) (review_found-IsForward now i job f findings)
      ]
