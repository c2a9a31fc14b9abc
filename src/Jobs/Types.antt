-- ===== src/Jobs/Types.antt =====
-- conversion-job.types.ts and conversion-job.schema.ts: a job as it is stored, and as it is returned.
use alsm_web_be.Base.{ℕ, String, Bool, true, false, Option, none, some}

pub data JobStatus : Type 0 where
  queued processing completed failed dead cancelled : JobStatus

-- ConversionType of project.types.ts.
pub data ConversionType : Type 0 where
  bms_dspf_to_frontend cobol_to_java : ConversionType

pub data Priority : Type 0 where
  high normal low : Priority

abbrev pub is_queued : JobStatus → Bool
is_queued JobStatus.queued = true
is_queued _ = false

abbrev pub is_processing : JobStatus → Bool
is_processing JobStatus.processing = true
is_processing _ = false

-- `status: { $in: [FAILED, DEAD] }`
abbrev pub is_retryable : JobStatus → Bool
is_retryable JobStatus.failed = true
is_retryable JobStatus.dead = true
is_retryable _ = false

-- A document of `conversion_jobs`. Its id is its key in the table; times are milliseconds.
pub record Job : Type 0 where
  pub organization_id : ℕ
  pub project_id : ℕ
  pub screen_id : Option String
  pub conversion_type : ConversionType
  pub status : JobStatus
  pub priority : Priority
  pub attempt_count : Option ℕ
  pub max_attempts : Option ℕ
  pub execution_generation : Option ℕ
  pub processing_token : Option String
  pub processing_lease_expires_at : Option ℕ
  pub input_reference : Option String
  pub result_reference : Option String
  pub error_code : Option String
  pub error_message : Option String
  pub tool_version : Option String
  pub created_by : ℕ
  pub created_at : ℕ
  pub updated_at : ℕ
  pub started_at : Option ℕ
  pub completed_at : Option ℕ

-- ConversionJobRecord, what a caller sees of a job.
pub record JobRecord : Type 0 where
  pub id : ℕ
  pub organization_id : ℕ
  pub project_id : ℕ
  pub screen_id : Option String
  pub conversion_type : ConversionType
  pub status : JobStatus
  pub priority : Priority
  pub attempt_count : Option ℕ
  pub max_attempts : Option ℕ
  pub execution_generation : ℕ
  pub input_reference : Option String
  pub result_reference : Option String
  pub error_code : Option String
  pub error_message : Option String
  pub tool_version : Option String
  pub created_by : ℕ
  pub created_at : ℕ
  pub updated_at : ℕ
  pub started_at : Option ℕ
  pub completed_at : Option ℕ

-- `value ?? fallback`, and `$ifNull`.
abbrev pub or_else : Option ℕ → ℕ → ℕ
or_else none d = d
or_else (some n) d = n

unfoldable pub map_job : ℕ → Job → JobRecord
map_job id j = record {
  id = id;
  organization_id = j.organization_id;
  project_id = j.project_id;
  screen_id = j.screen_id;
  conversion_type = j.conversion_type;
  status = j.status;
  priority = j.priority;
  attempt_count = j.attempt_count;
  max_attempts = j.max_attempts;
  execution_generation = or_else j.execution_generation 0;
  input_reference = j.input_reference;
  result_reference = j.result_reference;
  error_code = j.error_code;
  error_message = j.error_message;
  tool_version = j.tool_version;
  created_by = j.created_by;
  created_at = j.created_at;
  updated_at = j.updated_at;
  started_at = j.started_at;
  completed_at = j.completed_at;
}
