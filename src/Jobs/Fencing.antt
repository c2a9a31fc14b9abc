-- ===== src/Jobs/Fencing.antt =====
-- A worker whose lease was taken over can write nothing any more.
use alsm_web_be.Base.{
  ℕ, String, Bool, true, false, not, ◌≡◌, Option, none, some, List, Table, lookup, all, arith,
  str_eq, is_some_text, is_truthy, lookup-insert_self, missed_one, ◌&&◌,
}
use alsm_web_be.Jobs.Types.{is_processing, is_queued, Job, JobRecord}
use alsm_web_be.Jobs.Repository.{
  holds_lease, by_token, of_generation, claimed, renewed, retried, released, failed_with, stalled,
  undelivered, completed_with, with_reference, update_one, mark_processing, mark_completed,
  mark_failed, renew_processing_lease, release_processing_for_retry,
}
use alsm_web_be.Jobs.Calls.{Command, Call, effect, run}
use alsm_web_be.Jobs.Kept.{run-Stored}
use alsm_web_be.Jobs.Leases.{mark_processing-done}

-- Every command but a claim under this token.
abbrev pub is_no_claim : String → Call → Bool
is_no_claim token c = elim c.command [
  | Command.mark_processing k _ _ ↦ not (str_eq k token)
  | _ ↦ true
]

lost-effect :
    (token : String) (c : Call) (j : Job)
    → is_no_claim token c ≡ true
    → is_some_text j.processing_token token ≡ false
    → is_some_text (effect c j).processing_token token ≡ false
unfolding effect retried claimed renewed released failed_with stalled undelivered completed_with
    with_reference
lost-effect token c j ok h = ground arith

-- The four writes of a worker with its token, all refused.
abbrev pub IsFenced : ℕ → String → Table Job → Type 0
IsFenced id token t =
    ((lease now : ℕ) → renew_processing_lease id token lease now t ≡ (false, t))
    × ((now : ℕ) → release_processing_for_retry id token now t ≡ (false, t))
    × ((reference : String) (version : Option String) (now : ℕ)
        → mark_completed id reference version (some token) now t ≡ (none, t))
    × ((code message : String) (generation : Option ℕ) (now : ℕ)
        → mark_failed id code message (some token) generation now t ≡ (false, t))

lost-IsFenced :
    (id : ℕ) (token : String) (t : Table Job) (j : Job)
    → lookup id t ≡ some j
    → is_some_text j.processing_token token ≡ false
    → is_truthy (some token) ≡ true
    → IsFenced id token t
unfolding renew_processing_lease release_processing_for_retry mark_completed mark_failed update_one
    holds_lease
lost-IsFenced id token t j found lost set = (
  λ lease now.
      rw (missed_one t id (holds_lease token now) j found (ground arith), renew_processing_lease),
  λ now. rw (
    missed_one t id (holds_lease token now) j found (ground arith),
    release_processing_for_retry,
    update_one,
  ),
  λ reference version now. rw (
    missed_one t id (by_token (some token) now (λ k. is_processing k.status)) j found
        (ground arith),
    mark_completed,
    update_one,
  ),
  λ code message generation now. rw (
    missed_one t id
        (by_token (some token) now (λ k. is_queued k.status && of_generation generation k)) j found
        (ground arith),
    mark_failed,
    update_one,
  ),
)

-- Once another worker has claimed a job under its own token, the former worker's renewals, its
-- release, its completion and its failure, under its token (which is not empty), are refused and
-- change nothing, whatever calls ran since, as long as nobody claims under the former token again.
pub mark_processing-IsFenced :
    (id : ℕ) (token k : String) (lease generation now : ℕ) (t : Table Job) (r : JobRecord)
    (cs : List Call)
    → (mark_processing id k lease generation now t).0 ≡ some r
    → str_eq k token ≡ false
    → is_truthy (some token) ≡ true
    → all (is_no_claim token) cs ≡ true
    → IsFenced id token (run cs (mark_processing id k lease generation now t).1)
unfolding claimed
mark_processing-IsFenced id token k lease generation now t r cs e other set ok =
    let (j, found, fits, eqr, after) = mark_processing-done id k lease generation now t r e in
    let (m, there, lost) =
      run-Stored (λ m. is_some_text m.processing_token token ≡ false) (is_no_claim token)
        (λ c m fine h fits. lost-effect token c m fine h) cs
        (mark_processing id k lease generation now t).1 id ok
        (
          claimed k lease now j,
          rw after (lookup-insert_self id (claimed k lease now j) t),
          other,
        ) in
    lost-IsFenced id token _ m there lost set
