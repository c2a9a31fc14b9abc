-- ===== src/Jobs/Repository.antt =====
-- The operations of mongo-conversion-job.repository.ts. Each is one atomic command on one document,
-- so it is a function on the table; `now` is what its `new Date()` reads, and what the schema's
-- `timestamps` writes as `updatedAt`.
use alsm_web_be.Base.{
  ℕ, ◌+◌, String, Bool, true, false, not, ◌&&◌, ◌||◌, Option, none, some, Table, lookup, insert,
  find_one, exists_value, is_some_of, is_some_text, is_truthy, ltb, leb, ◌==◌, if◌then◌else◌,
}
use alsm_web_be.Jobs.Types.{
  JobStatus, Priority, is_queued, is_processing, is_retryable, Job, JobRecord, or_else, map_job,
}

-- `executionGeneration: g`, where 0 also matches a document without the field.
unfoldable pub has_generation : ℕ → Job → Bool
has_generation g j =
    if g == 0
    then is_some_of j.execution_generation 0 || not (exists_value j.execution_generation)
    else is_some_of j.execution_generation g

abbrev is_before : Option ℕ → ℕ → Bool
is_before none now = false
is_before (some t) now = leb t now

abbrev is_after : Option ℕ → ℕ → Bool
is_after none now = false
is_after (some t) now = ltb now t

-- `status: PROCESSING, processingLeaseExpiresAt: { $lte: now }`
unfoldable pub is_abandoned : ℕ → Job → Bool
is_abandoned now j = is_processing j.status && is_before j.processing_lease_expires_at now

-- `processingFilter`
unfoldable pub holds_lease : String → ℕ → Job → Bool
holds_lease token now j =
    is_processing j.status
    && is_some_text j.processing_token token
    && is_after j.processing_lease_expires_at now

-- `findOneAndUpdate` and `updateOne` by an id and a filter: the document written, if any.
unfoldable pub update_one : ℕ → (Job → Bool) → (Job → Job) → Table Job → Option Job × Table Job
update_one id p f t = elim (find_one id p t) [
  | none ↦ (none, t)
  | some j ↦ (some (f j), insert id (f j) t)
]

abbrev pub returned : ℕ → Option Job × Table Job → Option JobRecord × Table Job
returned id (none, t) = (none, t)
returned id (some j, t) = (some (map_job id j), t)

abbrev pub counted : Option Job × Table Job → Bool × Table Job
counted (o, t) = (exists_value o, t)

-- The schema's defaults complete what the caller gives, which has no token and no lease.
unfoldable pub stored_job : ℕ → Job → Job
stored_job now input = record input {
  attempt_count = some (or_else input.attempt_count 0);
  max_attempts = some (or_else input.max_attempts 3);
  execution_generation = some (or_else input.execution_generation 0);
  processing_token = none;
  processing_lease_expires_at = none;
  created_at = now;
  updated_at = now;
}

unfoldable pub create_job : ℕ → Job → ℕ → Table Job → Option JobRecord × Table Job
create_job id input now t = elim (exists_value (lookup id t)) [
  | true ↦ (none, t)
  | false ↦ (some (map_job id (stored_job now input)), insert id (stored_job now input) t)
]

unfoldable pub retried : Option Priority → ℕ → Job → Job
retried priority now j = record j {
  status = JobStatus.queued;
  attempt_count = some 0;
  priority = elim priority [ none ↦ j.priority | some p ↦ p ];
  error_code = none;
  error_message = none;
  completed_at = none;
  started_at = none;
  processing_token = none;
  processing_lease_expires_at = none;
  execution_generation = some (or_else j.execution_generation 0 + 1);
  updated_at = now;
}

unfoldable pub retry : ℕ → ℕ → Option Priority → ℕ → Table Job → Option JobRecord × Table Job
unfolding retried
retry id organization priority now t = returned id (
    update_one id (λ j. j.organization_id == organization && is_retryable j.status)
      (retried priority now) t)

unfoldable pub is_claimable : ℕ → ℕ → Job → Bool
unfolding has_generation is_abandoned
is_claimable generation now j =
    ltb (or_else j.attempt_count 0) (or_else j.max_attempts 3)
    && has_generation generation j
    && (is_queued j.status || is_abandoned now j)

unfoldable pub claimed : String → ℕ → ℕ → Job → Job
claimed token lease now j = record j {
  status = JobStatus.processing;
  started_at = some now;
  processing_token = some token;
  processing_lease_expires_at = some lease;
  attempt_count = some (or_else j.attempt_count 0 + 1);
  error_code = none;
  error_message = none;
  completed_at = none;
  updated_at = now;
}

unfoldable pub mark_processing : ℕ → String → ℕ → ℕ → ℕ → Table Job → Option JobRecord × Table Job
mark_processing id token lease generation now t =
    returned id (update_one id (is_claimable generation now) (claimed token lease now) t)

unfoldable pub renewed : ℕ → ℕ → Job → Job
renewed lease now j = record j { processing_lease_expires_at = some lease; updated_at = now }

-- The answer is whether a document changed: a write of the same lease at the time of the last
-- write does not count.
unfoldable pub renew_processing_lease : ℕ → String → ℕ → ℕ → Table Job → Bool × Table Job
renew_processing_lease id token lease now t = elim (find_one id (holds_lease token now) t) [
  | none ↦ (false, t)
  | some j ↦ (
    not (is_some_of j.processing_lease_expires_at lease && j.updated_at == now),
    insert id (renewed lease now j) t,
  )
]

unfoldable pub released : ℕ → Job → Job
released now j = record j {
  status = JobStatus.queued;
  processing_token = none;
  processing_lease_expires_at = none;
  updated_at = now;
}

unfoldable pub release_processing_for_retry : ℕ → String → ℕ → Table Job → Bool × Table Job
release_processing_for_retry id token now t =
    counted (update_one id (holds_lease token now) (released now) t)

unfoldable pub failed_with : String → String → ℕ → Job → Job
failed_with code message now j = record j {
  status = JobStatus.failed;
  error_code = some code;
  error_message = some message;
  completed_at = some now;
  processing_token = none;
  processing_lease_expires_at = none;
  updated_at = now;
}

unfoldable pub stalled : ℕ → Job → Job
unfolding failed_with
stalled now j =
    failed_with "CONVERSION_WORKER_STALLED"
      "Conversion worker stopped before completion; retry is required" now j

unfoldable pub mark_abandoned_failed : ℕ → ℕ → ℕ → Table Job → Bool × Table Job
mark_abandoned_failed id generation now t =
    counted (update_one id (λ j. is_abandoned now j && has_generation generation j) (stalled now) t)

-- Unlike the other failures, this one does not touch the token and the lease.
unfoldable pub undelivered : ℕ → Job → Job
undelivered now j = record j {
  status = JobStatus.failed;
  error_code = some "CONVERSION_QUEUE_DELIVERY_LOST";
  error_message = some "Conversion queue delivery was lost; retry is required";
  completed_at = some now;
  updated_at = now;
}

unfoldable pub is_undelivered : ℕ → ℕ → Job → Bool
unfolding has_generation
is_undelivered generation queued_before j =
    is_queued j.status && leb j.updated_at queued_before && has_generation generation j

unfoldable pub mark_undelivered_failed : ℕ → ℕ → ℕ → ℕ → Table Job → Bool × Table Job
mark_undelivered_failed id generation queued_before now t =
    counted (update_one id (is_undelivered generation queued_before) (undelivered now) t)

unfoldable pub completed_with : String → Option String → ℕ → Job → Job
completed_with reference version now j = record j {
  status = JobStatus.completed;
  result_reference = some reference;
  tool_version = elim version [ none ↦ j.tool_version | some v ↦ some v ];
  completed_at = some now;
  processing_token = none;
  processing_lease_expires_at = none;
  updated_at = now;
}

-- `processingToken ? this.processingFilter(id, processingToken) : …`
abbrev pub by_token : Option String → ℕ → (Job → Bool) → Job → Bool
by_token none now p j = p j
by_token (some token) now p j = if is_truthy (some token) then holds_lease token now j else p j

unfoldable pub mark_completed :
    ℕ → String → Option String → Option String → ℕ → Table Job → Option JobRecord × Table Job
mark_completed id reference version token now t = returned id (
    update_one id (by_token token now (λ j. is_processing j.status))
      (completed_with reference version now) t)

abbrev pub of_generation : Option ℕ → Job → Bool
of_generation none j = true
of_generation (some g) j = has_generation g j

unfoldable pub mark_failed :
    ℕ → String → String → Option String → Option ℕ → ℕ → Table Job → Bool × Table Job
mark_failed id code message token generation now t = counted (
    update_one id (by_token token now (λ j. is_queued j.status && of_generation generation j))
      (failed_with code message now) t)

unfoldable pub with_reference : String → ℕ → Job → Job
with_reference reference now j = record j { result_reference = some reference; updated_at = now }

unfoldable pub update_result_reference : ℕ → String → ℕ → Table Job → Table Job
update_result_reference id reference now t =
    (update_one id (λ j. true) (with_reference reference now) t).1

-- `findById` of one organization, and `findByIdAnyOrganization`.
unfoldable pub find_by_id : ℕ → ℕ → Table Job → Option JobRecord
find_by_id id organization t = elim (find_one id (λ j. j.organization_id == organization) t) [
  | none ↦ none
  | some j ↦ some (map_job id j)
]

unfoldable pub find_by_id_any_organization : ℕ → Table Job → Option JobRecord
find_by_id_any_organization id t = elim (lookup id t) [ none ↦ none | some j ↦ some (map_job id j) ]
