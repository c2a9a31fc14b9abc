-- ===== src/Jobs/Worker.antt =====
-- One delivery of the queue to a worker: conversion-worker.runner.ts. The engine that converts is
-- another part: what it answers is an argument here. The updates of the screen's status are left
-- out: their errors are caught and logged, so they never change what becomes of a job.
use alsm_web_be.Base.{
  ℕ, ◌+◌, String, Bool, false, not, ◌||◌, Option, none, some, List, Table, leb, ◌==◌, if◌then◌else◌,
}
use alsm_web_be.Jobs.Types.{is_processing, is_queued, Job, JobRecord, or_else}
use alsm_web_be.Jobs.Repository.{
  mark_processing, find_by_id_any_organization, mark_completed, mark_failed,
  release_processing_for_retry,
}
use alsm_web_be.Jobs.Calls.{Call, run}

pub record Payload : Type 0 where
  pub conversion_job_id : ℕ
  pub execution_generation : Option ℕ

pub data Delivery : Type 0 where
  started : JobRecord → Delivery
  -- UnrecoverableError
  invalid_payload not_found : Delivery
  -- A return without an error.
  ignored_stale ignored_terminal : Delivery
  -- An error, after which the queue delivers again.
  active_lease not_acquired : Delivery

-- `Number.isSafeInteger`, where there is a generation.
abbrev pub is_valid_payload : Payload → Bool
is_valid_payload p = leb (or_else p.execution_generation 0) 9007199254740991

-- What becomes of a delivery whose claim was refused.
unfoldable pub refused : ℕ → Option JobRecord → Delivery
refused generation none = Delivery.not_found
refused generation (some existing) =
    if not (existing.execution_generation == generation)
    then Delivery.ignored_stale
    else if is_processing existing.status
    then Delivery.active_lease
    else if is_queued existing.status
    then Delivery.not_acquired
    else Delivery.ignored_terminal

-- What follows the claim. A refused one is followed by a second query, before which the calls
-- `others` of other processes run.
unfoldable pub after_claim : ℕ → ℕ → List Call → Option JobRecord × Table Job → Delivery × Table Job
after_claim id generation others (some job, t) = (Delivery.started job, t)
after_claim id generation others (none, t) =
    (refused generation (find_by_id_any_organization id (run others t)), run others t)

-- The lease lasts 45000 milliseconds.
unfoldable pub deliver : Payload → String → ℕ → List Call → Table Job → Delivery × Table Job
deliver p token now others t =
    if is_valid_payload p
    then after_claim p.conversion_job_id (or_else p.execution_generation 0) others (
        mark_processing p.conversion_job_id token (now + 45000) (or_else p.execution_generation 0)
          now t)
    else (Delivery.invalid_payload, t)

pub record Output : Type 0 where
  pub result_reference : String
  pub tool_version : Option String

-- An error of the execution, and whether the queue may deliver again after it.
pub record Failure : Type 0 where
  pub code : String
  pub message : String
  pub unrecoverable : Bool

abbrev pub lease_was_lost : Failure
lease_was_lost = record {
  code = "CONVERSION_ENGINE_UNAVAILABLE";
  message = "Conversion processing lease was lost";
  unrecoverable = false;
}

unfoldable pub after_completion : Option JobRecord × Table Job → Option Failure × Table Job
after_completion (some _, t) = (none, t)
after_completion (none, t) = (some lease_was_lost, t)

-- After the engine's output: the error thrown, if any, and the jobs.
unfoldable pub complete_delivery :
    ℕ → String → Bool → Output → ℕ → Table Job → Option Failure × Table Job
complete_delivery id token lease_lost output now t =
    if lease_lost
    then (some lease_was_lost, t)
    else after_completion
        (mark_completed id output.result_reference output.tool_version (some token) now t)

-- The `catch`, for the engine's errors and for those of `complete_delivery`.
unfoldable pub fail_delivery : ℕ → String → Bool → Failure → ℕ → ℕ → ℕ → Table Job → Table Job
fail_delivery id token lease_lost failure attempts_made attempts_allowed now t =
    if lease_lost
    then t
    else if failure.unrecoverable || leb attempts_allowed (attempts_made + 1)
    then (mark_failed id failure.code failure.message (some token) none now t).1
    else (release_processing_for_retry id token now t).1
