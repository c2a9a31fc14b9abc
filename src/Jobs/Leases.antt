-- ===== src/Jobs/Leases.antt =====
-- The processing lease: its holder is alone with the job, and who has lost it can write nothing.
use alsm_web_be.Base.{
  ℕ, ◌<◌, String, Bool, true, false, not, ◌&&◌, ◌≡◌, refl, sym, ap, Option, none, some, List, Table,
  lookup, insert, all, inl, inr, arith, leb, str_eq, str_eq_iff, is_truthy, lookup-insert_self,
  find_one-cases, found_one,
}
use alsm_web_be.Jobs.Types.{JobStatus, is_processing, Job, JobRecord, map_job}
use alsm_web_be.Jobs.Repository.{
  holds_lease, is_claimable, is_abandoned, is_undelivered, by_token, claimed, completed_with,
  update_one, mark_processing, mark_completed,
}
use alsm_web_be.Jobs.Calls.{Command, Call, guard, run}
use alsm_web_be.Jobs.Kept.{run-Stored}

abbrev is_other : String → Option String → Bool
is_other token none = true
is_other token (some k) = not (str_eq token k)

-- Whether a command acts without the token: every command may, but for the two that write a job
-- whatever its state, the completion without a token and the change of the result's place.
unfoldable pub is_foreign : String → Command → Bool
is_foreign token m = elim m [
  | Command.renew k _ ↦ not (str_eq token k)
  | Command.release k ↦ not (str_eq token k)
  | Command.mark_completed _ _ k ↦ is_truthy k && is_other token k
  | Command.mark_failed _ _ k _ ↦ is_other token k
  | Command.update_reference _ ↦ false
  | _ ↦ true
]

-- A foreign command that runs while a lease of this token is known to last.
abbrev pub leaves_alone : String → ℕ → Call → Bool
leaves_alone token until c = is_foreign token c.command && leb c.now until

pub record IsHeld (token : String) (until : ℕ) (j : Job) : Type 0 where
  pub status : j.status ≡ JobStatus.processing
  pub owner : j.processing_token ≡ some token
  pub lease : (l : ℕ) × (j.processing_lease_expires_at ≡ some l) × (until < l)

IsHeld-guard :
    (token : String) (until : ℕ) (c : Call) (j : Job)
    → leaves_alone token until c ≡ true
    → IsHeld token until j
    → guard c j ≡ false
unfolding guard is_foreign holds_lease is_claimable is_abandoned is_undelivered
IsHeld-guard token until c j ok h = let (l, e, lt) = h.lease in ground (arith, h.status, h.owner)

pub claimed-IsHeld :
    (token : String) (lease until now : ℕ) (j : Job)
    → until < lease
    → IsHeld token until (claimed token lease now j)
unfolding claimed
claimed-IsHeld token lease until now j h = record {
  status = refl;
  owner = refl;
  lease = (lease, refl, h);
}

-- What a claim that succeeds has found and written.
pub mark_processing-done :
    (id : ℕ) (token : String) (lease generation now : ℕ) (t : Table Job) (r : JobRecord)
    → (mark_processing id token lease generation now t).0 ≡ some r
    → (j : Job) × (lookup id t ≡ some j)
      × (is_claimable generation now j ≡ true)
      × (r ≡ map_job id (claimed token lease now j))
      × ((mark_processing id token lease generation now t).1
          ≡ insert id (claimed token lease now j) t)
unfolding mark_processing update_one
mark_processing-done id token lease generation now t r e =
    elim (find_one-cases id (is_claimable generation now) t) [
      | inl missed ↦ let no : none ≡ some r = rw (missed, mark_processing, update_one) at e in cc
      | inr (j, found, fits, hit) ↦
          let yes : some (map_job id (claimed token lease now j)) ≡ some r =
            rw (hit, mark_processing, update_one) at e in
          (j, found, fits, cc, rw (hit, mark_processing, update_one))
    ]

-- While the lease is known to last, calls without the token leave the job as it is.
pub run-IsHeld :
    (token : String) (until id : ℕ) (cs : List Call) (t : Table Job) (j : Job)
    → lookup id t ≡ some j
    → IsHeld token until j
    → all (leaves_alone token until) cs ≡ true
    → lookup id (run cs t) ≡ some j
run-IsHeld token until id cs t j found held ok =
    let (k, there, same) =
      run-Stored (λ k. k ≡ j) (leaves_alone token until)
        (λ c k fine same fits. absurd (cc (IsHeld-guard token until c k fine (rw same held), fits)))
        cs t id ok (j, found, refl) in
    rw same at there

-- A completion by the holder before the lease ends.
held-mark_completed :
    (id : ℕ) (token : String) (until : ℕ) (t : Table Job) (j : Job) (reference : String)
    (version : Option String)
    → lookup id t ≡ some j
    → IsHeld token until j
    → is_truthy (some token) ≡ true
    → (mark_completed id reference version (some token) until t).0
      ≡ some (map_job id (completed_with reference version until j))
unfolding mark_completed update_one holds_lease
held-mark_completed id token until t j reference version found held set =
    let (l, e, lt) = held.lease in
    let hit =
      found_one t id (by_token (some token) until (λ k. is_processing k.status)) j found
        (ground (arith, held.status, held.owner, str_eq_iff token token)) in
    rw (hit, mark_completed, update_one)

-- A worker that has claimed a job (under a token that is not empty) completes it if it calls before
-- the lease of the claim ends, whatever calls ran between that do not use its token, do not complete
-- without a token and do not move a result, at clocks no later than the completion's: the job is
-- then COMPLETED with this result, and its attempts and generation are those of the claim.
pub mark_processing-mark_completed :
    (id : ℕ) (token : String) (lease generation now : ℕ) (t : Table Job) (r : JobRecord)
    (cs : List Call) (until : ℕ) (reference : String) (version : Option String)
    → (mark_processing id token lease generation now t).0 ≡ some r
    → is_truthy (some token) ≡ true
    → until < lease
    → all (leaves_alone token until) cs ≡ true
    → (q : JobRecord) × ((mark_completed id reference version
          (some token)
          until
          (run cs (mark_processing id token lease generation now t).1)).0
        ≡ some q)
      × (q.status ≡ JobStatus.completed)
      × (q.result_reference ≡ some reference)
      × (q.attempt_count ≡ r.attempt_count)
      × (q.execution_generation ≡ r.execution_generation)
unfolding map_job completed_with
mark_processing-mark_completed id token lease generation now t r cs until reference version e set lt
      ok =
    let (j, found, fits, eqr, after) = mark_processing-done id token lease generation now t r e in
    let mine = claimed-IsHeld token lease until now j lt in
    let there : lookup id (mark_processing id token lease generation now t).1
        ≡ some (claimed token lease now j) =
      rw after (lookup-insert_self id (claimed token lease now j) t) in
    let still = run-IsHeld token until id cs _ (claimed token lease now j) there mine ok in
    (
      map_job id (completed_with reference version until (claimed token lease now j)),
      held-mark_completed id token until _ (claimed token lease now j) reference version still mine
          set,
      refl,
      refl,
      ap (λ x. x.attempt_count) (sym eqr),
      ap (λ x. x.execution_generation) (sym eqr),
    )
