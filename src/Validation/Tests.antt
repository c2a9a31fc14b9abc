-- ===== src/Validation/Tests.antt =====
-- The theorem on reviews at concrete findings.
use alsm_web_be.Base.{none, some, [], ◌∷◌}
use alsm_web_be.Validation.Findings.{FindingStatus, Finding, Findings}
use alsm_web_be.Validation.Review.{ReviewCommand, review_validation_finding}
use alsm_web_be.Validation.Transitions.{IsForward, review_validation_finding-IsForward}

abbrev finding : FindingStatus → Finding
finding status = record {
  organization_id = 1;
  project_id = 2;
  conversion_job_id = 3;
  validation_run_id = 4;
  status = status;
  reviewed_by = none;
  reviewed_at = none;
  review_note = none;
}

abbrev command : ReviewCommand
command = record {
  user_id = 9;
  organization_id = 1;
  project_id = 2;
  validation_run_id = 4;
  finding_id = 7;
  status = FindingStatus.not_applicable;
  review_note = some " not in use ";
}

abbrev findings : Findings
findings = (7, finding FindingStatus.pending) ∷ []

review_validation_finding-IsForward_example :
    IsForward command findings (review_validation_finding 100 command (some 3) findings findings).1
review_validation_finding-IsForward_example =
    review_validation_finding-IsForward 100 command (some 3) findings findings
