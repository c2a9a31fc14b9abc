-- ===== src/Contracts/Invariant.antt =====
-- What holds of every stored contract and version, and the lemmas by which a write keeps it.
use alsm_web_be.Base.{
  ℕ, suc, ◌==◌, String, true, ◌≡◌, refl, ◌≢◌, sym, ◌∙◌, ap, none, some, Table, lookup, insert,
  lookup-insert_self, lookup-insert_ne, lookup-insert_cases, exists_value, is_truthy, Bool-cases,
  ==_iff, inl, inr, arith,
}
use mathlib.Core.Path.{subst, subst₂}
use alsm_web_be.Contracts.Types.{
  ReviewStatus, VersionReviewStatus, DocumentArtifact, ManifestBody, Manifest, Version, Contract,
}
use alsm_web_be.Contracts.Store.{Store, is_reviewed, is_version_approved}
use alsm_web_be.Contracts.Evidence.{is_archive_verified}

-- The status of the current version that belongs to the review status of a contract.
abbrev pub mirror : ReviewStatus → VersionReviewStatus
mirror ReviewStatus.not_submitted = VersionReviewStatus.draft
mirror ReviewStatus.pending = VersionReviewStatus.internal_review
mirror ReviewStatus.approved = VersionReviewStatus.approved
mirror ReviewStatus.changes_requested = VersionReviewStatus.changes_requested
mirror ReviewStatus.rejected = VersionReviewStatus.rejected

-- The current version is stored, belongs to the contract and has the matching review status.
pub record IsCurrent (versions : Table Version) (k : ℕ) (c : Contract) : Type 0 where
  pub version : Version
  pub found : lookup c.current_version_id versions ≡ some version
  pub owned : version.contract_id ≡ k
  pub mirrored : version.review_status ≡ mirror c.review_status

-- Nobody reviewed a contract that he created, and a reviewed contract names its reviewer.
pub record IsReviewed (c : Contract) : Type 0 where
  pub four_eyes : (r : ℕ) → c.reviewed_by_user_id ≡ some r → r ≢ c.created_by_user_id
  pub named : is_reviewed c.review_status ≡ true → exists_value c.reviewed_by_user_id ≡ true

-- A version that is approved names an approved template.
abbrev pub HasTemplate : Version → Type 0
HasTemplate v =
    is_version_approved v.review_status ≡ true
    → is_truthy v.terms.approved_template_version_id ≡ true

-- What no write changes in a version.
pub record Preserves (v w : Version) : Type 0 where
  pub owner : w.contract_id ≡ v.contract_id
  pub number : w.version_number ≡ v.version_number
  pub terms : w.terms ≡ v.terms
  pub canonical :
      (d : DocumentArtifact) → v.canonical_document ≡ some d → w.canonical_document ≡ some d

-- Every version is still there, and only versions of contract `k` have a new review status.
abbrev pub Grows : ℕ → Table Version → Table Version → Type 0
Grows k old new =
    (j : ℕ) (v : Version)
    → lookup j old ≡ some v
    → (w : Version) × (lookup j new ≡ some w)
      × Preserves v w
      × (v.contract_id ≢ k → w.review_status ≡ v.review_status)

pub Preserves-refl : (v : Version) → Preserves v v
Preserves-refl v = record { owner = refl; number = refl; terms = refl; canonical = λ d h. h }

pub Grows-refl : (k : ℕ) (t : Table Version) → Grows k t t
Grows-refl k t j v h = (v, h, Preserves-refl v, λ _. refl)

-- A rewritten version of the contract itself.
pub Grows-insert :
    (k w : ℕ) (v v' : Version) (t : Table Version)
    → lookup w t ≡ some v
    → v.contract_id ≡ k
    → Preserves v v'
    → Grows k t (insert w v' t)
Grows-insert k w v v' t found owned p j u h = elim (Bool-cases (j == w)) [
  | inl same ↦
      let e : j ≡ w = (==_iff j w).0 same in
      let eq : u ≡ v = cc in
      (
        v',
        rw e (lookup-insert_self w v' t),
        subst (λ x. Preserves x v') (sym eq) p,
        λ ne. absurd (ne (ap (λ x. x.contract_id) eq ∙ owned)),
      )
  | inr other ↦
      (u, lookup-insert_ne w j v' t (λ e. cc ((==_iff j w).1 e)) ∙ h, Preserves-refl u, λ _. refl)
]

-- A new version.
pub Grows-insert_new :
    (k w : ℕ) (v' : Version) (t : Table Version) → lookup w t ≡ none → Grows k t (insert w v' t)
Grows-insert_new k w v' t fresh j u h = (
  u,
  lookup-insert_ne w j v' t (λ e. cc (sym h ∙ ap (λ i. lookup i t) e ∙ fresh)) ∙ h,
  Preserves-refl u,
  λ _. refl,
)

-- A rewritten version that keeps its review status.
pub Grows-insert_same :
    (w : ℕ) (v v' : Version) (t : Table Version)
    → lookup w t ≡ some v
    → Preserves v v'
    → v'.review_status ≡ v.review_status
    → (k : ℕ) → Grows k t (insert w v' t)
Grows-insert_same w v v' t found p same k j u h = elim (Bool-cases (j == w)) [
  | inl here ↦
      let e : j ≡ w = (==_iff j w).0 here in
      let eq : u ≡ v = cc in
      (
        v',
        rw e (lookup-insert_self w v' t),
        subst (λ x. Preserves x v') (sym eq) p,
        λ _. same ∙ sym (ap (λ x. x.review_status) eq),
      )
  | inr other ↦
      (u, lookup-insert_ne w j v' t (λ e. cc ((==_iff j w).1 e)) ∙ h, Preserves-refl u, λ _. refl)
]

pub HasTemplate-insert :
    (w : ℕ) (v' : Version) (t : Table Version)
    → ((j : ℕ) (v : Version) → lookup j t ≡ some v → HasTemplate v)
    → HasTemplate v'
    → (j : ℕ) (v : Version) → lookup j (insert w v' t) ≡ some v
    → HasTemplate v
HasTemplate-insert w v' t h ok j v e = elim (lookup-insert_cases w j v' v t e) [
  | inl (_, here) ↦ subst HasTemplate (sym here) ok
  | inr (_, there) ↦ h j v there
]

module _ (digest : ManifestBody → String) where
  -- The manifest has the digest of its content, and names a stored version whose canonical
  -- document has the digest that the manifest gives for it.
  pub record IsBound (versions : Table Version) (m : Manifest) : Type 0 where
    pub version : Version
    pub document : DocumentArtifact
    pub found : lookup m.body.contract_version_id versions ≡ some version
    pub stored : version.canonical_document ≡ some document
    pub same : document.sha256 ≡ m.body.canonical_document_sha256
    pub digested : m.manifest_sha256 ≡ digest m.body

  pub record IsEvidenced (versions : Table Version) (c : Contract) : Type 0 where
    pub bound : (m : Manifest) → c.final_evidence ≡ some m → IsBound versions m
    pub archived :
        is_archive_verified c.archive_status ≡ true → exists_value c.final_evidence ≡ true

  pub record IsSound (versions : Table Version) (k : ℕ) (c : Contract) : Type 0 where
    pub current : IsCurrent versions k c
    pub reviewed : IsReviewed c
    pub evidenced : IsEvidenced versions c

  pub record IsConsistent (s : Store) : Type 0 where
    pub contracts : (k : ℕ) (c : Contract) → lookup k s.contracts ≡ some c → IsSound s.versions k c
    pub versions : (k : ℕ) (v : Version) → lookup k s.versions ≡ some v → HasTemplate v

  pub Grows-IsBound :
      {k : ℕ} {old new : Table Version} {m : Manifest}
      → Grows k old new
      → IsBound old m
      → IsBound new m
  Grows-IsBound g b =
      let (w, found, p, _) = g _ b.version b.found in
      record {
        version = w;
        document = b.document;
        found = found;
        stored = p.canonical b.document b.stored;
        same = b.same;
        digested = b.digested;
      }

  pub Grows-IsEvidenced :
      {k : ℕ} {old new : Table Version} {c : Contract}
      → Grows k old new
      → IsEvidenced old c
      → IsEvidenced new c
  Grows-IsEvidenced g e = record {
    bound = λ m h. Grows-IsBound g (e.bound m h);
    archived = e.archived;
  }

  -- A contract other than `k` is not touched by what happens to the versions of `k`.
  Grows-IsSound :
      {k j : ℕ} {old new : Table Version} {c : Contract}
      → Grows k old new
      → j ≢ k
      → IsSound old j c
      → IsSound new j c
  Grows-IsSound g ne s =
      let (w, found, p, same) = g _ s.current.version s.current.found in
      record {
        current = record {
          version = w;
          found = found;
          owned = p.owner ∙ s.current.owned;
          mirrored = same (λ e. ne (sym s.current.owned ∙ e)) ∙ s.current.mirrored;
        };
        reviewed = s.reviewed;
        evidenced = Grows-IsEvidenced g s.evidenced;
      }

  -- Writing one contract, with versions that have grown for it, keeps the store consistent.
  pub put-IsConsistent :
      (s : Store) (k : ℕ) (c : Contract) (new : Table Version)
      → IsConsistent s
      → Grows k s.versions new
      → ((j : ℕ) (v : Version) → lookup j new ≡ some v → HasTemplate v)
      → IsSound new k c
      → IsConsistent (record s { contracts = insert k c s.contracts; versions = new })
  put-IsConsistent s k c new h g t ok = record {
    contracts = λ j d e. elim (lookup-insert_cases k j c d s.contracts e) [
      | inl (same, here) ↦ subst₂ (IsSound new) (sym same) (sym here) ok
      | inr (ne, there) ↦ Grows-IsSound g ne (h.contracts j d there)
    ];
    versions = t;
  }

  -- Versions that have grown, and changed status for no contract, keep the store consistent.
  pub keep-IsConsistent :
      (s : Store) (new : Table Version)
      → IsConsistent s
      → ((k : ℕ) → Grows k s.versions new)
      → ((j : ℕ) (v : Version) → lookup j new ≡ some v → HasTemplate v)
      → IsConsistent (record s { versions = new })
  keep-IsConsistent s new h g t = record {
    contracts = λ j d e. Grows-IsSound (g (suc j)) (omega arith) (h.contracts j d e);
    versions = t;
  }
