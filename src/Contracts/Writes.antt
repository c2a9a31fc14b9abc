-- ===== src/Contracts/Writes.antt =====
-- The writes that the repository calls make, each as a step of the store.
use mathlib.Core.Path.{subst}
use alsm_web_be.Base.{
  ℕ, ◌≡◌, sym, ◌∙◌, ap, String, none, some, true, Table, lookup, insert, lookup-insert_self,
  exists_value,
}
use alsm_web_be.Contracts.Types.{ManifestBody, Version, Contract}
use alsm_web_be.Contracts.Store.{Store}
use alsm_web_be.Contracts.Invariant.{
  mirror, HasTemplate, HasTemplate-insert, Preserves, Grows-refl, Grows-insert, Grows-insert_new,
  IsReviewed, IsEvidenced, IsConsistent, Grows-IsEvidenced,
}
use alsm_web_be.Contracts.Steps.{Continues, Step, put}
use alsm_web_be.Contracts.Evidence.{is_archive_verified}

-- The contract names another version or review status, and keeps its evidence.
pub record SameEvidence (c d : Contract) : Type 0 where
  pub evidence : d.final_evidence ≡ c.final_evidence
  pub archive :
      is_archive_verified d.archive_status ≡ true → is_archive_verified c.archive_status ≡ true

module _ (digest : ManifestBody → String) where
  SameEvidence-IsEvidenced :
      {c d : Contract} (vs : Table Version)
      → SameEvidence c d
      → IsEvidenced digest vs c
      → IsEvidenced digest vs d
  SameEvidence-IsEvidenced vs same e = record {
    bound = λ m h. e.bound m (sym same.evidence ∙ h);
    archived = λ h. ap exists_value same.evidence ∙ e.archived (same.archive h);
  }

  pub continuing :
      (s : Store) (k : ℕ) (c d : Contract)
      → lookup k s.contracts ≡ some c
      → Continues c d
      → (old : Contract) → lookup k s.contracts ≡ some old
      → Continues old d
  continuing s k c d found ok old here = subst (λ x. Continues x d) (some_eq (sym found ∙ here)) ok
    where
      some_eq : {a b : Contract} → some a ≡ some b → a ≡ b
      some_eq h = cc

  -- A contract and its current version are rewritten together.
  pub update_both :
      (s : Store) (k : ℕ) (c d : Contract) (v w : Version)
      → IsConsistent digest s
      → lookup k s.contracts ≡ some c
      → lookup c.current_version_id s.versions ≡ some v
      → v.contract_id ≡ k
      → Preserves v w
      → Continues c d
      → d.current_version_id ≡ c.current_version_id
      → SameEvidence c d
      → w.review_status ≡ mirror d.review_status
      → HasTemplate w
      → IsReviewed d
      → Step digest s (record s {
        contracts = insert k d s.contracts;
        versions = insert c.current_version_id w s.versions;
      })
  update_both s k c d v w h found there owned p ok same_id same mirrored template reviewed =
      let grows = Grows-insert k c.current_version_id v w s.versions there owned p in
      put k d (insert c.current_version_id w s.versions) grows
        (HasTemplate-insert c.current_version_id w s.versions h.versions template)
        (record {
          current = record {
            version = w;
            found = rw same_id (lookup-insert_self c.current_version_id w s.versions);
            owned = p.owner ∙ owned;
            mirrored = mirrored;
          };
          reviewed = reviewed;
          evidenced =
              SameEvidence-IsEvidenced (insert c.current_version_id w s.versions) same
                (Grows-IsEvidenced digest grows (h.contracts k c found).evidenced);
        })
        (continuing s k c d found ok)

  -- A contract is rewritten alone, and keeps its current version and its review.
  pub update_contract :
      (s : Store) (k : ℕ) (c d : Contract)
      → IsConsistent digest s
      → lookup k s.contracts ≡ some c
      → Continues c d
      → d.current_version_id ≡ c.current_version_id
      → d.review_status ≡ c.review_status
      → d.reviewed_by_user_id ≡ c.reviewed_by_user_id
      → IsEvidenced digest s.versions d
      → Step digest s (record s { contracts = insert k d s.contracts })
  update_contract s k c d h found ok same_id same_review same_reviewer evidenced =
      let sound = h.contracts k c found in
      put k d s.versions (Grows-refl k s.versions) h.versions
        (record {
          current = record {
            version = sound.current.version;
            found = rw same_id sound.current.found;
            owned = sound.current.owned;
            mirrored = rw same_review sound.current.mirrored;
          };
          reviewed = record {
            four_eyes = λ r e. rw ok.creator (sound.reviewed.four_eyes r (sym same_reviewer ∙ e));
            named = rw (same_review, same_reviewer) sound.reviewed.named;
          };
          evidenced = evidenced;
        })
        (continuing s k c d found ok)

  -- A contract is rewritten alone, and keeps its evidence too.
  pub update_contract_only :
      (s : Store) (k : ℕ) (c d : Contract)
      → IsConsistent digest s
      → lookup k s.contracts ≡ some c
      → Continues c d
      → d.current_version_id ≡ c.current_version_id
      → d.review_status ≡ c.review_status
      → d.reviewed_by_user_id ≡ c.reviewed_by_user_id
      → SameEvidence c d
      → Step digest s (record s { contracts = insert k d s.contracts })
  update_contract_only s k c d h found ok same_id same_review same_reviewer same =
      update_contract s k c d h found ok same_id same_review same_reviewer
        (SameEvidence-IsEvidenced s.versions same (h.contracts k c found).evidenced)

  -- A contract gets a new version in the status draft, and nobody has reviewed it.
  pub start_version :
      (s : Store) (k w : ℕ) (d : Contract) (v : Version)
      → IsConsistent digest s
      → lookup w s.versions ≡ none
      → v.contract_id ≡ k
      → d.current_version_id ≡ w
      → v.review_status ≡ mirror d.review_status
      → HasTemplate v
      → IsReviewed d
      → IsEvidenced digest s.versions d
      → ((old : Contract) → lookup k s.contracts ≡ some old → Continues old d)
      → Step digest s
          (record s { contracts = insert k d s.contracts; versions = insert w v s.versions })
  start_version s k w d v h fresh owned here mirrored template reviewed evidenced ok =
      let grows = Grows-insert_new k w v s.versions fresh in
      put k d (insert w v s.versions) grows (HasTemplate-insert w v s.versions h.versions template)
        (record {
          current = record {
            version = v;
            found = rw here (lookup-insert_self w v s.versions);
            owned = owned;
            mirrored = mirrored;
          };
          reviewed = reviewed;
          evidenced = Grows-IsEvidenced digest grows evidenced;
        })
        ok
