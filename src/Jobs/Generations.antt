-- ===== src/Jobs/Generations.antt =====
-- A manual retry starts a new generation; nothing of an older one touches the job again. A job
-- that is over stays over.
use alsm_web_be.Base.{
  ℕ, ◌≤◌, ◌<◌, String, Bool, true, false, ◌&&◌, ◌≡◌, refl, sym, Option, none, some, List, Table,
  lookup, insert, inl, inr, arith, lookup-insert_self, find_one-cases, ◌==◌, missed_one, ap, ◌∙◌,
  all-true,
}
use alsm_web_be.Jobs.Types.{
  JobStatus, Priority, is_queued, is_retryable, Job, JobRecord, or_else, map_job,
}
use alsm_web_be.Jobs.Repository.{
  has_generation, is_claimable, is_undelivered, is_abandoned, holds_lease, claimed, renewed,
  retried, released, failed_with, stalled, undelivered, completed_with, with_reference, update_one,
  retry, mark_processing, mark_abandoned_failed, mark_undelivered_failed, mark_failed,
}
use alsm_web_be.Jobs.Calls.{Call, guard, effect, run}
use alsm_web_be.Jobs.Kept.{run-Stored}

abbrev pub generation_of : Job → ℕ
generation_of j = or_else j.execution_generation 0

generation_grows : (c : Call) (j : Job) → generation_of j ≤ generation_of (effect c j)
unfolding effect retried claimed renewed released failed_with stalled undelivered completed_with
    with_reference
generation_grows c j = ground arith

abbrev pub IsStaleFor : ℕ → ℕ → Table Job → Type 0
IsStaleFor id g t =
    ((token : String) (lease now : ℕ) → mark_processing id token lease g now t ≡ (none, t))
    × ((now : ℕ) → mark_abandoned_failed id g now t ≡ (false, t))
    × ((before now : ℕ) → mark_undelivered_failed id g before now t ≡ (false, t))
    × ((code message : String) (now : ℕ)
        → mark_failed id code message none (some g) now t ≡ (false, t))

old-IsStaleFor :
    (id g : ℕ) (t : Table Job) (j : Job)
    → lookup id t ≡ some j
    → g < generation_of j
    → IsStaleFor id g t
unfolding mark_processing mark_abandoned_failed mark_undelivered_failed mark_failed update_one
    has_generation is_claimable is_undelivered
old-IsStaleFor id g t j found old = (
  λ token lease now.
      rw (missed_one t id (is_claimable g now) j found (ground arith), mark_processing, update_one),
  λ now. rw (
    missed_one t id (λ k. is_abandoned now k && has_generation g k) j found (ground arith),
    mark_abandoned_failed,
    update_one,
  ),
  λ before now. rw (
    missed_one t id (is_undelivered g before) j found (ground arith),
    mark_undelivered_failed,
    update_one,
  ),
  λ code message now. rw (
    missed_one t id (λ k. is_queued k.status && has_generation g k) j found (ground arith),
    mark_failed,
    update_one,
  ),
)

retry-done :
    (id organization : ℕ) (p : Option Priority) (now : ℕ) (t : Table Job) (r : JobRecord)
    → (retry id organization p now t).0 ≡ some r
    → (j : Job) × (lookup id t ≡ some j)
      × (r ≡ map_job id (retried p now j))
      × ((retry id organization p now t).1 ≡ insert id (retried p now j) t)
unfolding retry update_one
retry-done id organization p now t r e =
    elim (find_one-cases id (λ j. j.organization_id == organization && is_retryable j.status) t) [
      | inl missed ↦ let no : none ≡ some r = rw (missed, retry, update_one) at e in cc
      | inr (j, found, fits, hit) ↦
          let yes : some (map_job id (retried p now j)) ≡ some r =
            rw (hit, retry, update_one) at e in
          (j, found, cc, rw (hit, retry, update_one))
    ]

-- After a retry that succeeded, whatever calls ran since, every call for a generation up to the one
-- that the job had before is refused and changes nothing: a late delivery claims nothing, and late
-- recoveries and queue failures fail nothing.
pub retry-IsStaleFor :
    (id organization : ℕ) (p : Option Priority) (now : ℕ) (t : Table Job) (r : JobRecord)
    (cs : List Call) (g : ℕ) (j : Job)
    → (retry id organization p now t).0 ≡ some r
    → lookup id t ≡ some j
    → g ≤ generation_of j
    → IsStaleFor id g (run cs (retry id organization p now t).1)
unfolding retried
retry-IsStaleFor id organization p now t r cs g j e known old =
    let (i, found, _, after) = retry-done id organization p now t r e in
    let both : some i ≡ some j = sym found ∙ known in
    let same : i ≡ j = cc in
    let (k, there, grown) =
      run-Stored (λ k. generation_of (retried p now i) ≤ generation_of k) (λ c. true)
        (λ c k fine h fits. omega (arith, h, generation_grows c k)) cs
        (retry id organization p now t).1 id (all-true cs)
        (retried p now i, rw after (lookup-insert_self id (retried p now i) t), omega arith) in
    old-IsStaleFor id g _ k there (omega (arith, grown, old, ap (λ x. generation_of x) same))

-- COMPLETED and CANCELLED: no call leaves them.
abbrev pub is_over : JobStatus → Bool
is_over JobStatus.completed = true
is_over JobStatus.cancelled = true
is_over _ = false

over-effect :
    (c : Call) (j : Job)
    → is_over j.status ≡ true
    → guard c j ≡ true
    → ((effect c j).status ≡ j.status)
      × ((effect c j).attempt_count ≡ j.attempt_count)
      × (generation_of (effect c j) ≡ generation_of j)
unfolding guard effect holds_lease is_claimable is_abandoned is_undelivered retried claimed renewed
    released failed_with stalled undelivered completed_with with_reference
over-effect c j over fits = ground arith

-- A job that is COMPLETED or CANCELLED keeps its status, its attempts and its generation, whatever
-- calls run.
pub run-over :
    (id : ℕ) (cs : List Call) (t : Table Job) (j : Job)
    → lookup id t ≡ some j
    → is_over j.status ≡ true
    → (k : Job) × (lookup id (run cs t) ≡ some k)
      × (k.status ≡ j.status)
      × (k.attempt_count ≡ j.attempt_count)
      × (generation_of k ≡ generation_of j)
run-over id cs t j found over =
    let (k, there, h) =
      run-Stored
        (λ k.
          (k.status ≡ j.status)
          × (k.attempt_count ≡ j.attempt_count)
          × (generation_of k ≡ generation_of j))
        (λ c. true)
        (λ c k fine h fits.
          let (s, a, g) = over-effect c k (rw h.0 over) fits in (s ∙ h.0, a ∙ h.1, g ∙ h.2))
        cs t id (all-true cs) (j, found, (refl, refl, refl)) in
    (k, there, h.0, h.1, h.2)
