-- ===== src/Jobs/Changes.antt =====
-- What one call does to the table of jobs: nothing, one document written under its guard, or one
-- new document.
use alsm_web_be.Base.{
  ℕ, String, true, ◌≡◌, refl, Option, none, some, Table, lookup, insert, find_one-cases,
  Option-cases, inl, inr,
}
use alsm_web_be.Jobs.Types.{Job}
use alsm_web_be.Jobs.Repository
use alsm_web_be.Jobs.Repository.{
  holds_lease, is_claimable, is_abandoned, has_generation, is_undelivered, by_token, of_generation,
  update_one, returned, renewed, stored_job,
}
use alsm_web_be.Jobs.Calls.{NewJob, queued_job, Command, Call, guard, effect, apply}

abbrev pub first_job : NewJob → ℕ → Job
first_job n now = stored_job now (queued_job n)

pub data Changed (c : Call) (s : Table Job) : Table Job → Type 0 where
  same : Changed c s s
  wrote :
      (j : Job)
      → lookup c.id s ≡ some j
      → guard c j ≡ true
      → Changed c s (insert c.id (effect c j) s)
  made : (n : NewJob) → lookup c.id s ≡ none → Changed c s (insert c.id (first_job n c.now) s)

returned_store : (id : ℕ) (r : Option Job × Table Job) → (returned id r).1 ≡ r.1
returned_store id (none, t) = refl
returned_store id (some j, t) = refl

update_one-Changed :
    (c : Call) (s : Table Job) → Changed c s (update_one c.id (guard c) (effect c) s).1
unfolding update_one
update_one-Changed c s = elim (find_one-cases c.id (guard c) s) [
  | inl missed ↦ rw (missed, update_one) same
  | inr (j, found, fits, hit) ↦ rw (hit, update_one) (wrote j found fits)
]

create-Changed :
    (c : Call) (n : NewJob) (s : Table Job)
    → Changed c s (Repository.create_job c.id (queued_job n) c.now s).1
unfolding Repository.create_job
create-Changed c n s = elim (Option-cases (lookup c.id s)) [
  | inl absent ↦ rw (absent, Repository.create_job) (made n absent)
  | inr (j, found) ↦ rw (found, Repository.create_job) same
]

abbrev call : ℕ → ℕ → Command → Call
call id now command = record { id = id; now = now; command = command }

renew-Changed :
    (id now : ℕ) (k : String) (l : ℕ) (s : Table Job)
    → Changed (call id now (Command.renew k l)) s (Repository.renew_processing_lease id k l now s).1
unfolding Repository.renew_processing_lease guard effect
renew-Changed id now k l s = elim (find_one-cases id (holds_lease k now) s) [
  | inl missed ↦ rw (missed, Repository.renew_processing_lease) same
  | inr (j, found, fits, hit) ↦ rw (hit, Repository.renew_processing_lease) (wrote j found fits)
]

command-Changed :
    (id now : ℕ) (m : Command) (s : Table Job) → Changed (call id now m) s (apply (call id now m) s)
unfolding apply guard effect Repository.retry Repository.mark_processing
    Repository.renew_processing_lease Repository.release_processing_for_retry
    Repository.mark_abandoned_failed Repository.mark_undelivered_failed Repository.mark_completed
    Repository.mark_failed Repository.update_result_reference
command-Changed id now (Command.create n) s = create-Changed (call id now (Command.create n)) n s
command-Changed id now (Command.retry o p) s =
    rw (returned_store id _) (update_one-Changed (call id now (Command.retry o p)) s)
command-Changed id now (Command.mark_processing k l g) s =
    rw (returned_store id _) (update_one-Changed (call id now (Command.mark_processing k l g)) s)
command-Changed id now (Command.renew k l) s = renew-Changed id now k l s
command-Changed id now (Command.release k) s =
    update_one-Changed (call id now (Command.release k)) s
command-Changed id now (Command.mark_abandoned g) s =
    update_one-Changed (call id now (Command.mark_abandoned g)) s
command-Changed id now (Command.mark_undelivered g b) s =
    update_one-Changed (call id now (Command.mark_undelivered g b)) s
command-Changed id now (Command.mark_completed r v k) s =
    rw (returned_store id _) (update_one-Changed (call id now (Command.mark_completed r v k)) s)
command-Changed id now (Command.mark_failed e m k g) s =
    update_one-Changed (call id now (Command.mark_failed e m k g)) s
command-Changed id now (Command.update_reference r) s =
    update_one-Changed (call id now (Command.update_reference r)) s

pub apply-Changed : (c : Call) (s : Table Job) → Changed c s (apply c s)
apply-Changed c s = command-Changed c.id c.now c.command s
