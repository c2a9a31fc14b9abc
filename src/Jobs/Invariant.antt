-- ===== src/Jobs/Invariant.antt =====
-- What holds of every stored job after any sequence of calls.
use alsm_web_be.Base.{
  ℕ, ◌≤◌, true, ◌≡◌, refl, some, List, [], ◌∷◌, Table, lookup, insert, exists_value, inl, inr,
  arith, lookup-insert_cases,
}
use alsm_web_be.Jobs.Types.{is_processing, Job, or_else}
use alsm_web_be.Jobs.Repository.{
  holds_lease, is_claimable, is_abandoned, is_undelivered, stored_job, retried, claimed, renewed,
  released, failed_with, stalled, undelivered, completed_with, with_reference,
}
use alsm_web_be.Jobs.Calls.{NewJob, queued_job, Call, guard, effect, apply, run}
use alsm_web_be.Jobs.Changes.{Changed, same, wrote, made, first_job, apply-Changed}

-- A job has a token and a lease exactly while it is processing, and has not been claimed more
-- often than it may.
pub record IsLeased (j : Job) : Type 0 where
  pub token : exists_value j.processing_token ≡ is_processing j.status
  pub lease : exists_value j.processing_lease_expires_at ≡ is_processing j.status
  pub attempts : or_else j.attempt_count 0 ≤ or_else j.max_attempts 3

abbrev pub IsOrderly : Table Job → Type 0
IsOrderly t = (id : ℕ) (j : Job) → lookup id t ≡ some j → IsLeased j

first_job-IsLeased : (n : NewJob) (now : ℕ) → IsLeased (first_job n now)
unfolding stored_job queued_job
first_job-IsLeased n now = record { token = refl; lease = refl; attempts = omega arith }

effect-IsLeased : (c : Call) (j : Job) → IsLeased j → guard c j ≡ true → IsLeased (effect c j)
unfolding guard effect holds_lease is_claimable is_abandoned is_undelivered retried claimed renewed
    released failed_with stalled undelivered completed_with with_reference
effect-IsLeased c j h g = ground arith

insert-IsOrderly :
    (id : ℕ) (j : Job) (t : Table Job) → IsOrderly t → IsLeased j → IsOrderly (insert id j t)
insert-IsOrderly id j t h ok k v found = elim (lookup-insert_cases id k j v t found) [
  | inl (_, e) ↦ rw e ok
  | inr (_, before) ↦ h k v before
]

Changed-IsOrderly : (c : Call) (s t : Table Job) → Changed c s t → IsOrderly s → IsOrderly t
Changed-IsOrderly c s t same h = h
Changed-IsOrderly c s t (wrote j found fits) h =
    insert-IsOrderly c.id (effect c j) s h (effect-IsLeased c j (h c.id j found) fits)
Changed-IsOrderly c s t (made n absent) h =
    insert-IsOrderly c.id (first_job n c.now) s h (first_job-IsLeased n c.now)

-- From a table where every job has a processing token and a lease exactly if it is PROCESSING, and
-- at most as many attempts as its maximum, any sequence of calls leads to such a table.
pub run-IsOrderly : (cs : List Call) (t : Table Job) → IsOrderly t → IsOrderly (run cs t)
unfolding run
run-IsOrderly [] t h = h
run-IsOrderly (c ∷ cs) t h =
    run-IsOrderly cs (apply c t) (Changed-IsOrderly c t (apply c t) (apply-Changed c t) h)

-- An empty table is orderly.
pub empty-IsOrderly : IsOrderly []
unfolding lookup
empty-IsOrderly = λ id j e. cc
