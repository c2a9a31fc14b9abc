-- ===== src/Jobs/Deliveries.antt =====
-- What the worker promises of the deliveries of the queue.
use alsm_web_be.Base.{
  ℕ, ◌+◌, ◌<◌, String, Bool, true, false, ◌≡◌, refl, ◌∙◌, ap, ◌≢◌, Option, none, some, List, Table,
  lookup, insert, all, inl, inr, arith, lookup-insert_self, find_one-cases, found_one, missed_one,
  Option-cases, ◌⊎◌, Bool-cases,
}
use alsm_web_be.Jobs.Types.{JobStatus, is_processing, is_queued, Job, JobRecord, or_else, map_job}
use alsm_web_be.Jobs.Repository.{
  is_claimable, is_abandoned, has_generation, claimed, update_one, mark_processing,
  find_by_id_any_organization,
}
use alsm_web_be.Jobs.Calls.{Call, run}
use alsm_web_be.Jobs.Leases.{leaves_alone, IsHeld, claimed-IsHeld, run-IsHeld}
use alsm_web_be.Jobs.Worker.{Payload, Delivery, is_valid_payload, refused, after_claim, deliver}

abbrev pub is_dropped : Delivery → Bool
is_dropped Delivery.ignored_stale = true
is_dropped Delivery.ignored_terminal = true
is_dropped _ = false

refused-dropped :
    (g id : ℕ) (t : Table Job)
    → is_dropped (refused g (find_by_id_any_organization id t)) ≡ true
    → (j : Job) × (lookup id t ≡ some j)
      × ((or_else j.execution_generation 0 ≢ g)
          ⊎ ((is_processing j.status ≡ false) × (is_queued j.status ≡ false)))
unfolding refused map_job find_by_id_any_organization
refused-dropped g id t h = elim (Option-cases (lookup id t)) [
  | inl absent ↦
      let no : false ≡ true = rw (absent, find_by_id_any_organization, refused) at h in cc
  | inr (j, found) ↦ (j, found, ground (arith, found))
]

claim_missed :
    (id : ℕ) (token : String) (lease g now : ℕ) (t : Table Job) (j : Job)
    → lookup id t ≡ some j
    → is_claimable g now j ≡ false
    → mark_processing id token lease g now t ≡ (none, t)
unfolding mark_processing update_one
claim_missed id token lease g now t j found out =
    rw (missed_one t id (is_claimable g now) j found out, mark_processing, update_one)

-- A claim that is refused changes nothing.
mark_processing-refused :
    (id : ℕ) (token : String) (lease generation now : ℕ) (t : Table Job)
    → (mark_processing id token lease generation now t).0 ≡ none
    → mark_processing id token lease generation now t ≡ (none, t)
unfolding mark_processing update_one
mark_processing-refused id token lease generation now t e =
    elim (find_one-cases id (is_claimable generation now) t) [
      | inl missed ↦ rw (missed, mark_processing, update_one)
      | inr (j, found, fits, hit) ↦
          let no : some (map_job id (claimed token lease now j)) ≡ none =
            rw (hit, mark_processing, update_one) at e in
          cc
    ]

claimed_pair : {A B : Type 0} (q : Option A × B) (a : A) → q.0 ≡ some a → q ≡ (some a, q.1)
claimed_pair (o, b) a e = rw e refl

claim-refused :
    (p : Payload) (token : String) (now : ℕ) (others : List Call) (t : Table Job)
    → is_valid_payload p ≡ true
    → mark_processing p.conversion_job_id token
        (now + 45000)
        (or_else p.execution_generation 0)
        now
        t
      ≡ (none, t)
    → deliver p token now others t ≡ (
      refused
          (or_else p.execution_generation 0)
          (find_by_id_any_organization p.conversion_job_id (run others t)),
      run others t,
    )
unfolding deliver after_claim
claim-refused p token now others t valid e = rw (valid, e, deliver, after_claim)

claim-started :
    (p : Payload) (token : String) (now : ℕ) (others : List Call) (t u : Table Job) (r : JobRecord)
    → is_valid_payload p ≡ true
    → mark_processing p.conversion_job_id token
        (now + 45000)
        (or_else p.execution_generation 0)
        now
        t
      ≡ (some r, u)
    → deliver p token now others t ≡ (Delivery.started r, u)
unfolding deliver after_claim
claim-started p token now others t u r valid e = rw (valid, e, deliver, after_claim)

claim-invalid :
    (p : Payload) (token : String) (now : ℕ) (others : List Call) (t : Table Job)
    → is_valid_payload p ≡ false
    → deliver p token now others t ≡ (Delivery.invalid_payload, t)
unfolding deliver
claim-invalid p token now others t invalid = rw (invalid, deliver)

-- A delivery that the worker drops without an error has written nothing of its own, and its job
-- exists and either is of another generation or is neither queued nor processing.
pub deliver-dropped :
    (p : Payload) (token : String) (now : ℕ) (others : List Call) (t : Table Job)
    → is_dropped (deliver p token now others t).0 ≡ true
    → ((deliver p token now others t).1 ≡ run others t)
      × ((j : Job) × (lookup p.conversion_job_id (run others t) ≡ some j)
          × ((or_else j.execution_generation 0 ≢ or_else p.execution_generation 0)
              ⊎ ((is_processing j.status ≡ false) × (is_queued j.status ≡ false))))
deliver-dropped p token now others t h = elim (Bool-cases (is_valid_payload p)) [
  | inr invalid ↦ let no : false ≡ true = rw (claim-invalid p token now others t invalid) at h in cc
  | inl valid ↦
      elim (Option-cases
        (mark_processing p.conversion_job_id token (now + 45000) (or_else p.execution_generation 0)
          now t).0) [
            | inr (r, hit) ↦
                let no : false ≡ true =
                  rw (claim-started p token now others t _ r valid (claimed_pair _ r hit)) at h in
                cc
            | inl missed ↦
                let e = claim-refused p token now others t valid (
                  mark_processing-refused p.conversion_job_id token (now + 45000)
                    (or_else p.execution_generation 0) now t missed) in
                (ap (λ x. x.1) e, refused-dropped _ _ _ (rw e at h))
          ]
]

claim-found :
    (id : ℕ) (token : String) (lease g now : ℕ) (t : Table Job) (j : Job)
    → lookup id t ≡ some j
    → is_claimable g now j ≡ true
    → mark_processing id token lease g now t
      ≡ (some (map_job id (claimed token lease now j)), insert id (claimed token lease now j) t)
unfolding mark_processing update_one
claim-found id token lease g now t j found fits =
    rw (found_one t id (is_claimable g now) j found fits, mark_processing, update_one)

held_refused :
    (g : ℕ) (token : String) (later : ℕ) (j : Job)
    → IsHeld token later j
    → is_claimable g later j ≡ false
unfolding is_claimable is_abandoned
held_refused g token later j held = let (l, e, lt) = held.lease in ground (arith, held.status)

held_answer :
    (g id : ℕ) (t : Table Job) (j : Job)
    → lookup id t ≡ some j
    → j.status ≡ JobStatus.processing
    → or_else j.execution_generation 0 ≡ g
    → refused g (find_by_id_any_organization id t) ≡ Delivery.active_lease
unfolding refused find_by_id_any_organization map_job
held_answer g id t j found busy same =
    rw (found, find_by_id_any_organization, refused) (ground (arith, busy, same))

claimed_generation :
    (g : ℕ) (token : String) (lease now : ℕ) (j : Job)
    → is_claimable g now j ≡ true
    → or_else (claimed token lease now j).execution_generation 0 ≡ g
unfolding is_claimable has_generation claimed
claimed_generation g token lease now j fits = ground arith

-- A delivery of a job whose lease is known to last.
deliver-held :
    (p : Payload) (token k : String) (later : ℕ) (more : List Call) (t : Table Job) (c : Job)
    → lookup p.conversion_job_id t ≡ some c
    → IsHeld token later c
    → or_else c.execution_generation 0 ≡ or_else p.execution_generation 0
    → is_valid_payload p ≡ true
    → all (leaves_alone token later) more ≡ true
    → (deliver p k later more t).0 ≡ Delivery.active_lease
deliver-held p token k later more t c found held same valid ok =
    let g : ℕ = or_else p.execution_generation 0 in
    let no =
      claim_missed p.conversion_job_id k (later + 45000) g later t c found
        (held_refused g token later c held) in
    let still = run-IsHeld token later p.conversion_job_id more t c found held ok in
    ap (λ x. x.0) (claim-refused p k later more t valid no)
    ∙ held_answer g p.conversion_job_id (run more t) c still held.status same

-- A valid delivery is started if its job can be claimed, and then holds it for 45 seconds: a later
-- delivery of the same payload before the lease ends, under any token, is not started but ends in
-- the error that makes the queue deliver it again, whatever calls run before it and in the middle of
-- it, at clocks up to its own, that do not use the first token, do not complete without a token and
-- do not move a result.
pub deliver-started :
    (p : Payload) (token k : String) (now later : ℕ) (others cs more : List Call) (t : Table Job)
    (j : Job)
    → lookup p.conversion_job_id t ≡ some j
    → is_valid_payload p ≡ true
    → is_claimable (or_else p.execution_generation 0) now j ≡ true
    → later < now + 45000
    → all (leaves_alone token later) cs ≡ true
    → all (leaves_alone token later) more ≡ true
    → ((deliver p token now others t).0
        ≡ Delivery.started (map_job p.conversion_job_id (claimed token (now + 45000) now j)))
      × ((deliver p k later more (run cs (deliver p token now others t).1)).0
          ≡ Delivery.active_lease)
deliver-started p token k now later others cs more t j found valid fits lt ok ok' =
    let c = claimed token (now + 45000) now j in
    let first = claim-started p token now others t _ _ valid (
      claim-found p.conversion_job_id token (now + 45000) (or_else p.execution_generation 0) now t j
        found fits) in
    let held = claimed-IsHeld token (now + 45000) later now j lt in
    let there =
      run-IsHeld token later p.conversion_job_id cs _ c (lookup-insert_self p.conversion_job_id c t)
        held ok in
    rw first (
      refl,
      deliver-held p token k later more _ c there held
          (claimed_generation (or_else p.execution_generation 0) token (now + 45000) now j fits)
          valid ok',
    )
