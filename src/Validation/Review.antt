-- ===== src/Validation/Review.antt =====
-- application/review-validation-finding.service.ts, after the organization, the role and the project
-- were checked. `run` is the conversion job of the validation run that was found, which another
-- collection tells. The finding is read from `seen`, and written to `findings`: other calls may run
-- in between. The audit entry is left out.
use alsm_web_be.Base.{
  ℕ, Bool, false, not, ◌&&◌, Option, none, some, String, ltb, ◌==◌, is_empty, trim, units,
  exists_value, if◌then◌else◌,
}
use alsm_web_be.Validation.Findings.{
  FindingStatus, same_finding_status, Finding, Findings, is_human_review_target_status,
  is_allowed_human_review_transition, is_in_scope, find_finding, ReviewFinding, ReviewOutcome,
  review_finding,
}

pub record ReviewCommand : Type 0 where
  pub user_id : ℕ
  pub organization_id : ℕ
  pub project_id : ℕ
  pub validation_run_id : ℕ
  pub finding_id : ℕ
  pub status : FindingStatus
  pub review_note : Option String

pub data ReviewError : Type 0 where
  run_not_found finding_not_found review_status_invalid transition_invalid note_too_long
        note_required review_conflict :
      ReviewError

pub data Result (A : Type 0) : Type 0 where
  ok : A → Result A
  raise : ReviewError → Result A

abbrev pub is_note_too_long : Option String → Bool
is_note_too_long none = false
is_note_too_long (some s) = ltb 1000 (units s)

-- `rawReviewNote?.trim() || undefined`
abbrev pub trimmed_note : Option String → Option String
trimmed_note none = none
trimmed_note (some s) = if is_empty (trim s) then none else some (trim s)

abbrev pub is_not_applicable : FindingStatus → Bool
is_not_applicable s = same_finding_status s FindingStatus.not_applicable

unfoldable pub normalize_review_note : Option String → FindingStatus → Result (Option String)
unfolding units trim
normalize_review_note note status =
    if is_note_too_long note
    then raise ReviewError.note_too_long
    else if is_not_applicable status && not (exists_value (trimmed_note note))
    then raise ReviewError.note_required
    else ok (trimmed_note note)

abbrev pub review_input : ℕ → ReviewCommand → Finding → Option String → ReviewFinding
review_input now i f note = record {
  finding_id = i.finding_id;
  validation_run_id = i.validation_run_id;
  project_id = i.project_id;
  organization_id = i.organization_id;
  expected_status = f.status;
  new_status = i.status;
  reviewed_by = i.user_id;
  reviewed_at = now;
  review_note = note;
}

abbrev pub answered : ReviewOutcome × Findings → Result Finding × Findings
answered (ReviewOutcome.updated f, findings) = (ok f, findings)
answered (ReviewOutcome.conflict, findings) = (raise ReviewError.review_conflict, findings)
answered (ReviewOutcome.not_found, findings) = (raise ReviewError.finding_not_found, findings)

abbrev pub write_review :
    ℕ → ReviewCommand → Finding → Result (Option String) → Findings → Result Finding × Findings
write_review now i f (raise e) findings = (raise e, findings)
write_review now i f (ok note) findings =
    answered (review_finding (review_input now i f note) findings)

-- The checks on the finding that was read.
unfoldable pub review_found : ℕ → ReviewCommand → ℕ → Finding → Findings → Result Finding × Findings
unfolding normalize_review_note review_finding is_human_review_target_status
    is_allowed_human_review_transition
review_found now i job f findings =
    if not (
      is_in_scope i.validation_run_id i.project_id i.organization_id f
      && f.conversion_job_id == job)
    then (raise ReviewError.finding_not_found, findings)
    else if not (is_human_review_target_status i.status)
    then (raise ReviewError.review_status_invalid, findings)
    else if not (is_allowed_human_review_transition f.status i.status)
    then (raise ReviewError.transition_invalid, findings)
    else write_review now i f (normalize_review_note i.review_note i.status) findings

unfoldable pub review_validation_finding :
    ℕ → ReviewCommand → Option ℕ → Findings → Findings → Result Finding × Findings
unfolding review_found find_finding
review_validation_finding now i none seen findings = (raise ReviewError.run_not_found, findings)
review_validation_finding now i (some job) seen findings =
    elim (find_finding i.finding_id i.validation_run_id i.project_id i.organization_id seen) [
      | none ↦ (raise ReviewError.finding_not_found, findings)
      | some f ↦ review_found now i job f findings
    ]
