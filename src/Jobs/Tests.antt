-- ===== src/Jobs/Tests.antt =====
-- The theorems on the jobs at concrete tables.
use alsm_web_be.Base.{
  ℕ, true, false, ◌≡◌, refl, none, some, List, [], ◌∷◌, Table, lookup, insert, find_one, ◌≢◌, ◌⊎◌,
  arith,
}
use alsm_web_be.Jobs.Types.{
  JobStatus, ConversionType, Job, JobRecord, map_job, is_processing, is_queued,
}
use alsm_web_be.Jobs.Repository.{
  has_generation, is_abandoned, is_claimable, claimed, update_one, mark_processing, mark_completed,
  retried, retry, stored_job, find_by_id_any_organization,
}
use alsm_web_be.Jobs.Calls.{NewJob, queued_job, Command, Call, run}
use alsm_web_be.Jobs.Changes.{first_job}
use alsm_web_be.Jobs.Invariant.{IsOrderly, empty-IsOrderly, run-IsOrderly}
use alsm_web_be.Jobs.Leases.{is_foreign, mark_processing-mark_completed}
use alsm_web_be.Jobs.Fencing.{IsFenced, mark_processing-IsFenced}
use alsm_web_be.Jobs.Generations.{IsStaleFor, retry-IsStaleFor, run-over, generation_of}
use alsm_web_be.Jobs.Worker.{Payload, Delivery, refused, after_claim, deliver}
use alsm_web_be.Jobs.Worker.{Output, lease_was_lost, complete_delivery, fail_delivery}
use alsm_web_be.Jobs.Completions.{IsAccepted, complete_delivery-fail_delivery}
use alsm_web_be.Jobs.Repository.{holds_lease}
use alsm_web_be.Jobs.Deliveries.{deliver-started, deliver-dropped}

abbrev new_job : NewJob
new_job = record {
  organization_id = 2;
  project_id = 5;
  screen_id = none;
  conversion_type = ConversionType.cobol_to_java;
  priority = none;
  input_reference = some "program.cbl";
  created_by = 3;
}

abbrev queued : Job
queued = first_job new_job 100

abbrev queued_table : Table Job
queued_table = (7, queued) ∷ []

abbrev call : ℕ → Command → Call
call now command = record { id = 7; now = now; command = command }

-- A claim by another worker, a retry and a recovery that all come too early.
abbrev intruders : List Call
intruders =
    call 2000 (Command.mark_processing "token-b" 47000 0)
    ∷ call 3000 (Command.retry 2 none)
    ∷ call 4000 (Command.mark_abandoned 0)
    ∷ []

run-IsOrderly_example : IsOrderly (run (call 100 (Command.create new_job) ∷ intruders) [])
run-IsOrderly_example =
    run-IsOrderly (call 100 (Command.create new_job) ∷ intruders) [] empty-IsOrderly

abbrev running : Job
running = claimed "token-a" 46000 1000 queued

mark_processing-mark_completed_example :
    (q : JobRecord) × ((mark_completed 7 "out" none
        (some "token-a")
        5000
        (run intruders (mark_processing 7 "token-a" 46000 0 1000 queued_table).1)).0
      ≡ some q)
    × (q.status ≡ JobStatus.completed)
    × (q.result_reference ≡ some "out")
    × (q.attempt_count ≡ some 1)
    × (q.execution_generation ≡ 0)
unfolding mark_processing update_one find_one lookup insert is_claimable has_generation stored_job
    queued_job is_foreign map_job claimed
mark_processing-mark_completed_example =
    mark_processing-mark_completed 7 "token-a" 46000 0 1000 queued_table (map_job 7 running)
      intruders 5000 "out" none refl refl (omega arith) refl

abbrev running_table : Table Job
running_table = (7, running) ∷ []

-- The lease of `token-a` has ended at 50000.
mark_processing-IsFenced_example : IsFenced 7 "token-a" (
    run
      (call 51000 (Command.renew "token-b" 96000) ∷ [])
      (mark_processing 7 "token-b" 95000 0 50000 running_table).1)
unfolding mark_processing update_one find_one lookup insert is_claimable is_abandoned has_generation
    stored_job queued_job claimed map_job
mark_processing-IsFenced_example =
    mark_processing-IsFenced 7 "token-a" "token-b" 95000 0 50000 running_table
      (map_job 7 (claimed "token-b" 95000 50000 running))
      (call 51000 (Command.renew "token-b" 96000) ∷ []) refl refl refl refl

abbrev failed : Job
failed = record queued { status = JobStatus.failed }

abbrev failed_table : Table Job
failed_table = (7, failed) ∷ []

retry-IsStaleFor_example : IsStaleFor 7 0 (run intruders (retry 7 2 none 1500 failed_table).1)
unfolding retry retried update_one find_one lookup insert stored_job queued_job map_job
retry-IsStaleFor_example =
    retry-IsStaleFor 7 2 none 1500 failed_table (map_job 7 (retried none 1500 failed)) intruders 0
      failed refl refl (omega arith)

abbrev over : Job
over = record queued { status = JobStatus.completed }

run-over_example :
    (k : Job) × (lookup 7 (run intruders ((7, over) ∷ [])) ≡ some k)
    × (k.status ≡ JobStatus.completed)
    × (k.attempt_count ≡ some 0)
    × (generation_of k ≡ 0)
unfolding lookup stored_job queued_job
run-over_example = run-over 7 intruders ((7, over) ∷ []) over refl refl

abbrev payload : Payload
payload = record { conversion_job_id = 7; execution_generation = none }

deliver-started_example :
    ((deliver payload "token-a" 1000 [] queued_table).0 ≡ Delivery.started (map_job 7 running))
    × ((deliver payload "token-c" 6000 intruders
          (run intruders (deliver payload "token-a" 1000 [] queued_table).1)).0
        ≡ Delivery.active_lease)
unfolding lookup is_claimable has_generation stored_job queued_job is_foreign
deliver-started_example =
    deliver-started payload "token-a" "token-c" 1000 6000 [] intruders intruders queued_table queued
      refl refl refl (omega arith) refl refl

deliver-dropped_example :
    ((deliver payload "token-a" 1000 [] ((7, over) ∷ [])).1 ≡ run [] ((7, over) ∷ []))
    × ((j : Job) × (lookup 7 (run [] ((7, over) ∷ [])) ≡ some j)
        × ((generation_of j ≢ 0)
            ⊎ ((is_processing j.status ≡ false) × (is_queued j.status ≡ false))))
unfolding deliver after_claim refused mark_processing update_one find_one lookup is_claimable
    has_generation stored_job queued_job find_by_id_any_organization run map_job is_abandoned
deliver-dropped_example = deliver-dropped payload "token-a" 1000 [] ((7, over) ∷ []) refl

abbrev output : Output
output = record { result_reference = "out"; tool_version = none }

-- Another worker has taken the job over after the lease of `token-a` had ended.
abbrev successors : List Call
successors =
    call 51000 (Command.mark_processing "token-b" 96000 0)
    ∷ call 52000 (Command.renew "token-a" 97000)
    ∷ []

complete_delivery-fail_delivery_example :
    ((holds_lease "token-a" 50000 running ≡ true)
      × IsAccepted 7 successors (complete_delivery 7 "token-a" false output 50000 running_table))
    ⊎ ((holds_lease "token-a" 50000 running ≡ false)
        × (complete_delivery 7 "token-a" false output 50000 running_table
            ≡ (some lease_was_lost, running_table))
        × (fail_delivery 7 "token-a" false lease_was_lost 0 3 53000 (run successors running_table)
            ≡ run successors running_table))
unfolding lookup
complete_delivery-fail_delivery_example =
    complete_delivery-fail_delivery 7 "token-a" output 50000 running_table running successors false
      lease_was_lost 0 3 53000 refl refl refl (omega arith)
