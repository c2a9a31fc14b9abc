-- ===== src/Jobs/Completions.antt =====
-- How a delivery ends: what the `catch` of the worker can still do to a job.
use alsm_web_be.Base.{
  ℕ, ◌+◌, ◌≤◌, ◌⊎◌, String, Bool, true, false, ◌||◌, ◌&&◌, ◌≡◌, refl, Option, none, some, insert,
  found_one, List, Table, lookup, lookup-insert_self, missed_one, all, arith, leb, is_truthy,
  Bool-cases, inl, inr,
}
use alsm_web_be.Jobs.Types.{JobStatus, is_processing, is_queued, Job}
use alsm_web_be.Jobs.Repository.{
  holds_lease, by_token, of_generation, claimed, renewed, retried, released, failed_with, stalled,
  undelivered, completed_with, with_reference, update_one, mark_completed, mark_failed,
  release_processing_for_retry,
}
use alsm_web_be.Jobs.Calls.{Call, guard, effect, run}
use alsm_web_be.Jobs.Kept.{run-Stored}
use alsm_web_be.Jobs.Fencing.{is_no_claim}
use alsm_web_be.Jobs.Generations.{run-over}
use alsm_web_be.Jobs.Worker.{
  Output, Failure, lease_was_lost, after_completion, complete_delivery, fail_delivery,
}

-- A command that does not claim under this token, at a clock that is not before `since`.
abbrev pub is_later : String → ℕ → Call → Bool
is_later token since c = is_no_claim token c && leb since c.now

-- A lease that is lost stays lost.
lost-effect :
    (token : String) (since : ℕ) (c : Call) (j : Job)
    → is_later token since c ≡ true
    → holds_lease token since j ≡ false
    → guard c j ≡ true
    → holds_lease token since (effect c j) ≡ false
unfolding effect guard holds_lease retried claimed renewed released failed_with stalled undelivered
    completed_with with_reference
lost-effect token since c j ok lost fits = ground arith

lost_later :
    (token : String) (since now : ℕ) (j : Job)
    → since ≤ now
    → holds_lease token since j ≡ false
    → holds_lease token now j ≡ false
unfolding holds_lease
lost_later token since now j le lost = ground (arith, le, lost)

-- Without the lease the `catch` writes nothing.
lost-fail_delivery :
    (id : ℕ) (token : String) (lost : Bool) (f : Failure) (made allowed now : ℕ) (t : Table Job)
    (j : Job)
    → is_truthy (some token) ≡ true
    → lookup id t ≡ some j
    → holds_lease token now j ≡ false
    → fail_delivery id token lost f made allowed now t ≡ t
unfolding fail_delivery mark_failed release_processing_for_retry update_one
lost-fail_delivery id token true f made allowed now t j set found gone = refl
lost-fail_delivery id token false f made allowed now t j set found gone =
    elim (Bool-cases (f.unrecoverable || leb allowed (made + 1))) [
      | inl final ↦ rw (
        final,
        missed_one t id
            (by_token (some token) now (λ k. is_queued k.status && of_generation none k)) j found
            (ground (arith, set, gone)),
        mark_failed,
        update_one,
      )
      | inr again ↦ rw (
        again,
        missed_one t id (holds_lease token now) j found gone,
        release_processing_for_retry,
        update_one,
      )
    ]

-- The completion was accepted: no error is thrown, and the job stays COMPLETED.
abbrev pub IsAccepted : ℕ → List Call → Option Failure × Table Job → Type 0
IsAccepted id cs (error, t) =
    (error ≡ none) × (k : Job) × (lookup id (run cs t) ≡ some k) × (k.status ≡ JobStatus.completed)

completed-IsAccepted :
    (id : ℕ) (token : String) (output : Output) (now : ℕ) (t : Table Job) (j : Job) (cs : List Call)
    → lookup id t ≡ some j
    → is_truthy (some token) ≡ true
    → holds_lease token now j ≡ true
    → IsAccepted id cs (complete_delivery id token false output now t)
unfolding complete_delivery after_completion mark_completed update_one completed_with
completed-IsAccepted id token output now t j cs found set held =
    let done = completed_with output.result_reference output.tool_version now j in
    let (k, there, status, _, _) =
      run-over id cs (insert id done t) done (lookup-insert_self id done t) refl in
    rw
      (
        found_one t id (by_token (some token) now (λ m. is_processing m.status)) j found
            (ground (arith, set, held)),
        mark_completed,
        update_one,
      )
      (refl, k, there, status)

refused-complete_delivery :
    (id : ℕ) (token : String) (output : Output) (now : ℕ) (t : Table Job) (j : Job)
    → lookup id t ≡ some j
    → is_truthy (some token) ≡ true
    → holds_lease token now j ≡ false
    → complete_delivery id token false output now t ≡ (some lease_was_lost, t)
unfolding complete_delivery after_completion mark_completed update_one
refused-complete_delivery id token output now t j found set gone = rw (
  missed_one t id (by_token (some token) now (λ m. is_processing m.status)) j found
      (ground (arith, set, gone)),
  mark_completed,
  update_one,
)

-- A worker completes a job of the table under its token, which is not empty. If it holds the lease
-- then, no error is thrown, and the job is COMPLETED after any other calls. If not, the error of a
-- lost lease is thrown and nothing written; and what the `catch` does, at a clock that is not before
-- the completion's, changes nothing either, whatever the failure, after any other calls that are not
-- before the completion's clock and do not claim under the token.
pub complete_delivery-fail_delivery :
    (id : ℕ) (token : String) (output : Output) (now : ℕ) (t : Table Job) (j : Job) (cs : List Call)
    (lost : Bool) (f : Failure) (made allowed later : ℕ)
    → lookup id t ≡ some j
    → is_truthy (some token) ≡ true
    → all (is_later token now) cs ≡ true
    → now ≤ later
    → ((holds_lease token now j ≡ true)
        × IsAccepted id cs (complete_delivery id token false output now t))
      ⊎ ((holds_lease token now j ≡ false)
          × (complete_delivery id token false output now t ≡ (some lease_was_lost, t))
          × (fail_delivery id token lost f made allowed later (run cs t) ≡ run cs t))
complete_delivery-fail_delivery id token output now t j cs lost f made allowed later found set ok
      le =
    elim (Bool-cases (holds_lease token now j)) [
      | inl held ↦ inl (held, completed-IsAccepted id token output now t j cs found set held)
      | inr gone ↦
          let (k, there, still) =
            run-Stored (λ m. holds_lease token now m ≡ false) (is_later token now)
              (λ c m fine h fits. lost-effect token now c m fine h fits) cs t id ok
              (j, found, gone) in
          inr (
            gone,
            refused-complete_delivery id token output now t j found set gone,
            lost-fail_delivery id token lost f made allowed later (run cs t) k set there
                (lost_later token now later k le still),
          )
    ]
