-- ===== src/Contracts/Archiving.antt =====
-- Archiving the same evidence again changes nothing.
use alsm_web_be.Base.{
  ◌==◌, String, true, false, not, ◌≡◌, some, insert, lookup-insert_self, find_one, find_one-cases,
  found_one, Bool-cases, str_eq, str_eq_iff, inl, inr, arith, ◌&&◌,
}
use alsm_web_be.Contracts.Types.{ManifestBody, Version, Contract}
use alsm_web_be.Contracts.Store.{Store, done}
use alsm_web_be.Contracts.Drafting.{Replayed}
use alsm_web_be.Contracts.Steps.{done-none-ne, raise-ne-done}
use alsm_web_be.Contracts.Evidence.{
  AttachEvidence, is_valid_body, awaits_evidence, completed_contract, write_evidence,
  is_evidenced_version, attach_verified_final_evidence,
}

-- A first archiving writes the completed contract and nothing else.
write_evidence-first :
    (i : AttachEvidence) (c : Contract) (v : Version) (s : Store) (r : Replayed) (t : Store)
    → write_evidence i c v s ≡ done (some r) t
    → r.replayed ≡ false
    → (t ≡ record s { contracts = insert i.contract_id (completed_contract i c) s.contracts })
      × (r.result ≡ record {
        id = i.contract_id;
        contract = completed_contract i c;
        version_id = i.version_id;
        version = v;
      })
unfolding write_evidence
write_evidence-first i c v s r t e first = ground arith

completed-awaits :
    (i : AttachEvidence) (c : Contract)
    → awaits_evidence i c ≡ true
    → awaits_evidence i (completed_contract i c) ≡ true
unfolding awaits_evidence completed_contract
completed-awaits i c h = ground arith

-- A completed contract with the manifest's digest is answered as a replay.
write_evidence-again :
    (i : AttachEvidence) (c : Contract) (v : Version) (t : Store)
    → write_evidence i (completed_contract i c) v t
      ≡ done
          (some (record {
            result = record {
              id = i.contract_id;
              contract = completed_contract i c;
              version_id = i.version_id;
              version = v;
            };
            replayed = true;
          }))
          t
unfolding write_evidence
write_evidence-again i c v t =
    ground (arith, str_eq_iff i.manifest.manifest_sha256 i.manifest.manifest_sha256)

abbrev archived : AttachEvidence → Contract → Store → Store
archived i c s = record s { contracts = insert i.contract_id (completed_contract i c) s.contracts }

abbrev first_answer : AttachEvidence → Contract → Version → Replayed
first_answer i c v = record {
  result = record {
    id = i.contract_id;
    contract = completed_contract i c;
    version_id = i.version_id;
    version = v;
  };
  replayed = false;
}

archived_again :
    (digest : ManifestBody → String) (i : AttachEvidence) (c : Contract) (v : Version) (s : Store)
    → not (
        is_valid_body i.manifest.body && str_eq i.manifest.manifest_sha256 (digest i.manifest.body))
      ≡ false
    → find_one i.contract_id
        (awaits_evidence i)
        (insert i.contract_id (completed_contract i c) s.contracts)
      ≡ some (completed_contract i c)
    → find_one i.version_id (is_evidenced_version i) s.versions ≡ some v
    → (i.manifest.body.contract_version_id == i.version_id) ≡ true
    → attach_verified_final_evidence digest i (archived i c s)
      ≡ done
          (some (record {
            result = record {
              id = i.contract_id;
              contract = completed_contract i c;
              version_id = i.version_id;
              version = v;
            };
            replayed = true;
          }))
          (archived i c s)
unfolding attach_verified_final_evidence
archived_again digest i c v s valid again hit same =
    rw valid (rw again (rw hit (rw same (write_evidence-again i c v (archived i c s)))))

again_at :
    (digest : ManifestBody → String) (i : AttachEvidence) (r : Replayed) (t u : Store)
    (q : Replayed)
    → t ≡ u
    → r ≡ q
    → attach_verified_final_evidence digest i u ≡ done (some (record q { replayed = true })) u
    → attach_verified_final_evidence digest i t ≡ done (some (record r { replayed = true })) t
again_at digest i r t u q here there again = rw (here, there) again

-- Archiving evidence that was archived for the first time, again, returns the same contract and
-- version, marked as a replay, and changes nothing.
pub attach_verified_final_evidence-again :
    (digest : ManifestBody → String) (i : AttachEvidence) (s : Store) (r : Replayed) (t : Store)
    → attach_verified_final_evidence digest i s ≡ done (some r) t
    → r.replayed ≡ false
    → attach_verified_final_evidence digest i t ≡ done (some (record r { replayed = true })) t
unfolding attach_verified_final_evidence
attach_verified_final_evidence-again digest i s r t e first =
    elim (Bool-cases (
      not (
        is_valid_body i.manifest.body
        && str_eq i.manifest.manifest_sha256 (digest i.manifest.body)))) [
          | inl invalid ↦ absurd (raise-ne-done (rw (invalid, attach_verified_final_evidence) at e))
          | inr valid ↦ elim (find_one-cases i.contract_id (awaits_evidence i) s.contracts) [
            | inl missed ↦
                absurd (done-none-ne (rw (valid, missed, attach_verified_final_evidence) at e))
            | inr (c, found, fits, hit) ↦
                elim (find_one-cases i.version_id (is_evidenced_version i) s.versions) [
                  | inl missed ↦
                      absurd (
                        raise-ne-done
                          (rw (valid, hit, missed, attach_verified_final_evidence) at e))
                  | inr (v, there, fits', hit') ↦
                      elim (Bool-cases (i.manifest.body.contract_version_id == i.version_id)) [
                        | inr other ↦ absurd (
                            raise-ne-done
                              (rw (valid, hit, hit', other, attach_verified_final_evidence) at e))
                        | inl same ↦
                            let (after, result) =
                              write_evidence-first i c v s r t
                                (rw (valid, hit, hit', same, attach_verified_final_evidence) at e)
                                first in
                            let again =
                              found_one (insert i.contract_id (completed_contract i c) s.contracts)
                                i.contract_id (awaits_evidence i) (completed_contract i c)
                                (lookup-insert_self i.contract_id (completed_contract i c)
                                  s.contracts)
                                (completed-awaits i c fits) in
                            let same_store : t ≡ archived i c s = after in
                            let same_answer : r ≡ first_answer i c v = cc (result, first) in
                            again_at digest i r t (archived i c s) (first_answer i c v) same_store
                              same_answer (archived_again digest i c v s valid again hit' same)
                      ]
                ]
          ]
        ]
