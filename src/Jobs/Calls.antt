-- ===== src/Jobs/Calls.antt =====
-- The repository's commands as data: sequences of them are what the API, the workers and the
-- recovery timer do to the jobs together, in the order in which the database runs them.
use alsm_web_be.Base.{
  ℕ, String, Bool, true, false, ◌&&◌, Option, none, some, List, [], ◌∷◌, Table, ◌==◌,
}
use alsm_web_be.Jobs.Types.{
  JobStatus, ConversionType, Priority, is_queued, is_processing, is_retryable, Job,
}
use alsm_web_be.Jobs.Repository
use alsm_web_be.Jobs.Repository.{
  has_generation, is_abandoned, holds_lease, update_one, create_job, retried, is_claimable, claimed,
  renewed, renew_processing_lease, released, release_processing_for_retry, failed_with, stalled,
  mark_abandoned_failed, undelivered, is_undelivered, mark_undelivered_failed, completed_with,
  by_token, of_generation, with_reference, update_result_reference,
}

-- What ConversionJobService.create passes to the repository.
pub record NewJob : Type 0 where
  pub organization_id : ℕ
  pub project_id : ℕ
  pub screen_id : Option String
  pub conversion_type : ConversionType
  pub priority : Option Priority
  pub input_reference : Option String
  pub created_by : ℕ

unfoldable pub queued_job : NewJob → Job
queued_job n = record {
  organization_id = n.organization_id;
  project_id = n.project_id;
  screen_id = n.screen_id;
  conversion_type = n.conversion_type;
  status = JobStatus.queued;
  priority = elim n.priority [ none ↦ Priority.normal | some p ↦ p ];
  attempt_count = some 0;
  max_attempts = some 3;
  execution_generation = none;
  processing_token = none;
  processing_lease_expires_at = none;
  input_reference = n.input_reference;
  result_reference = none;
  error_code = none;
  error_message = none;
  tool_version = none;
  created_by = n.created_by;
  created_at = 0;
  updated_at = 0;
  started_at = none;
  completed_at = none;
}

-- A command; `id` and `now` are common to all of them.
pub data Command : Type 0 where
  create : NewJob → Command
  retry : ℕ → Option Priority → Command
  mark_processing : String → ℕ → ℕ → Command
  renew : String → ℕ → Command
  release : String → Command
  mark_abandoned : ℕ → Command
  mark_undelivered : ℕ → ℕ → Command
  mark_completed : String → Option String → Option String → Command
  mark_failed : String → String → Option String → Option ℕ → Command
  update_reference : String → Command

pub record Call : Type 0 where
  pub id : ℕ
  pub now : ℕ
  pub command : Command

unfoldable pub apply : Call → Table Job → Table Job
apply c t = elim c.command [
  | Command.create n ↦ (create_job c.id (queued_job n) c.now t).1
  | Command.retry organization priority ↦ (Repository.retry c.id organization priority c.now t).1
  | Command.mark_processing token lease generation ↦
      (Repository.mark_processing c.id token lease generation c.now t).1
  | Command.renew token lease ↦ (renew_processing_lease c.id token lease c.now t).1
  | Command.release token ↦ (release_processing_for_retry c.id token c.now t).1
  | Command.mark_abandoned generation ↦ (mark_abandoned_failed c.id generation c.now t).1
  | Command.mark_undelivered generation before ↦
      (mark_undelivered_failed c.id generation before c.now t).1
  | Command.mark_completed reference version token ↦
      (Repository.mark_completed c.id reference version token c.now t).1
  | Command.mark_failed code message token generation ↦
      (Repository.mark_failed c.id code message token generation c.now t).1
  | Command.update_reference reference ↦ update_result_reference c.id reference c.now t
]

unfoldable pub run : List Call → Table Job → Table Job
run [] t = t
run (c ∷ cs) t = run cs (apply c t)

-- When a command writes the job that it finds, and what it writes.
unfoldable pub guard : Call → Job → Bool
guard c j = elim c.command [
  | Command.create n ↦ false
  | Command.retry organization priority ↦ j.organization_id == organization && is_retryable j.status
  | Command.mark_processing token lease generation ↦ is_claimable generation c.now j
  | Command.renew token lease ↦ holds_lease token c.now j
  | Command.release token ↦ holds_lease token c.now j
  | Command.mark_abandoned generation ↦ is_abandoned c.now j && has_generation generation j
  | Command.mark_undelivered generation before ↦ is_undelivered generation before j
  | Command.mark_completed reference version token ↦
      by_token token c.now (λ k. is_processing k.status) j
  | Command.mark_failed code message token generation ↦
      by_token token c.now (λ k. is_queued k.status && of_generation generation k) j
  | Command.update_reference reference ↦ true
]

unfoldable pub effect : Call → Job → Job
effect c j = elim c.command [
  | Command.create n ↦ j
  | Command.retry organization priority ↦ retried priority c.now j
  | Command.mark_processing token lease generation ↦ claimed token lease c.now j
  | Command.renew token lease ↦ renewed lease c.now j
  | Command.release token ↦ released c.now j
  | Command.mark_abandoned generation ↦ stalled c.now j
  | Command.mark_undelivered generation before ↦ undelivered c.now j
  | Command.mark_completed reference version token ↦ completed_with reference version c.now j
  | Command.mark_failed code message token generation ↦ failed_with code message c.now j
  | Command.update_reference reference ↦ with_reference reference c.now j
]
