-- ===== src/Contracts/Activation.antt =====
-- findActivationEligible of mongo-contract-aggregate.repository.ts: which contract of a lead may
-- activate the customer.
use mathlib.Core.List.{Memᴰ}
use mathlib.Core.List.Memᴰ
use mathlib.Core.Path.{subst}
use alsm_web_be.Base.{
  ℕ, ◌≤◌, ◌+◌, Bool, true, false, not, ◌&&◌, ◌≡◌, refl, ap, ◌∙◌, Option, none, some, [], ◌∷◌, Table,
  find_one-cases, lookup, exists_value, ltb, ◌==◌, str_eq, inl, inr, arith, Bool-cases,
  Option-cases, if◌then◌else◌,
}
use alsm_web_be.Contracts.Types.{
  LifecycleStatus, same_lifecycle, ActivationStatus, Manifest, Version, Contract,
}
use alsm_web_be.Contracts.Store.{WithVersion, load_current}
use alsm_web_be.Contracts.Evidence.{
  is_signed_pdf, is_application_pdf, is_confirmed, is_archive_verified, has_canonical_sha256,
}

abbrev is_eligible : ActivationStatus → Bool
is_eligible ActivationStatus.eligible = true
is_eligible _ = false

abbrev is_real_evidence : Option Manifest → Bool
is_real_evidence none = false
is_real_evidence (some m) =
    is_signed_pdf m.body.signed_pdf.kind
    && is_application_pdf m.body.signed_pdf.mime_type
    && not (str_eq m.body.provider_key "ALSM_DEMO")

unfoldable pub is_activation_candidate : ℕ → Contract → Bool
unfolding same_lifecycle
is_activation_candidate lead c =
    c.lead_id == lead
    && same_lifecycle c.lifecycle_status LifecycleStatus.completed
    && is_confirmed c.provider_completion_status
    && is_archive_verified c.archive_status
    && is_eligible c.activation_status
    && exists_value c.customer_user_id
    && is_real_evidence c.final_evidence

unfoldable pub matches_evidence : WithVersion → Option Manifest → Bool
unfolding has_canonical_sha256
matches_evidence w none = false
matches_evidence w (some m) =
    m.body.contract_version_id == w.version_id
    && has_canonical_sha256 m.body.canonical_document_sha256 w.version.canonical_document

-- `completedAt`, where a missing one sorts before every date.
abbrev pub completed_rank : Contract → ℕ
completed_rank c = elim c.completed_at [ none ↦ 0 | some t ↦ t + 1 ]

-- One step of `sort({ completedAt: -1 })` and `findOne`; between equal dates the first is kept.
abbrev later_one : ℕ → Contract → Option (ℕ × Contract) → Option (ℕ × Contract)
later_one k c none = some (k, c)
later_one k c (some (j, d)) =
    if ltb (completed_rank c) (completed_rank d) then some (j, d) else some (k, c)

unfoldable pub latest_candidate : ℕ → Table Contract → Option (ℕ × Contract)
latest_candidate lead [] = none
latest_candidate lead ((k, c) ∷ t) =
    let rest = latest_candidate lead t in
    if is_activation_candidate lead c then later_one k c rest else rest

-- `versions` is what `loadCurrent` reads after the contract was found.
unfoldable pub find_activation_eligible : ℕ → Table Version → Table Contract → Option WithVersion
find_activation_eligible lead versions contracts = elim (latest_candidate lead contracts) [
  | none ↦ none
  | some (id, c) ↦ elim (load_current versions id c) [
    | none ↦ none
    | some w ↦ if matches_evidence w c.final_evidence then some w else none
  ]
]

-- A candidate of the table, such that no candidate was completed later.
pub record IsPick (lead : ℕ) (t : Table Contract) (q : ℕ × Contract) : Type 0 where
  pub stored : Memᴰ q t
  pub candidate : is_activation_candidate lead q.1 ≡ true
  pub latest :
      (j : ℕ) (d : Contract)
      → Memᴰ (j, d) t
      → is_activation_candidate lead d ≡ true
      → completed_rank d ≤ completed_rank q.1

latest_candidate-none :
    (lead : ℕ) (t : Table Contract)
    → latest_candidate lead t ≡ none
    → (j : ℕ) (d : Contract) → Memᴰ (j, d) t
    → is_activation_candidate lead d ≡ false
unfolding latest_candidate
latest_candidate-none lead [] h j d (m) = absurd (Memᴰ.not-nil m)
latest_candidate-none lead ((k, c) ∷ t) h j d m =
    elim (Bool-cases (is_activation_candidate lead c)) [
      | inl fits ↦ elim (Option-cases (latest_candidate lead t)) [
        | inl empty ↦ cc (rw (fits, empty, latest_candidate) at h)
        | inr ((i, b), hit) ↦ ground (arith, fits, hit)
      ]
      | inr out ↦ elim (Memᴰ.cases_cons m) [
        | inl e ↦ rw (ap (λ x. x.1) e) out
        | inr there ↦ latest_candidate-none lead t (rw (out, latest_candidate) at h) j d there
      ]
    ]

IsPick-here :
    (lead k : ℕ) (c : Contract) (t : Table Contract)
    → is_activation_candidate lead c ≡ true
    → ((j : ℕ) (d : Contract)
        → Memᴰ (j, d) t
        → is_activation_candidate lead d ≡ true
        → completed_rank d ≤ completed_rank c)
    → IsPick lead ((k, c) ∷ t) (k, c)
IsPick-here lead k c t fits top = record {
  stored = Memᴰ.head refl;
  candidate = fits;
  latest = λ j d m cand. elim (Memᴰ.cases_cons m) [
    | inl e ↦ omega (arith, ap (λ x. completed_rank x.1) e)
    | inr there ↦ top j d there cand
  ];
}

IsPick-there :
    (lead k : ℕ) (c : Contract) (t : Table Contract) (q : ℕ × Contract)
    → IsPick lead t q
    → (is_activation_candidate lead c ≡ true → completed_rank c ≤ completed_rank q.1)
    → IsPick lead ((k, c) ∷ t) q
IsPick-there lead k c t q p top = record {
  stored = Memᴰ.tail p.stored;
  candidate = p.candidate;
  latest = λ j d m cand. elim (Memᴰ.cases_cons m) [
    | inl e ↦ omega (arith, ap (λ x. completed_rank x.1) e, top (rw (ap (λ x. x.1) e) at cand))
    | inr there ↦ p.latest j d there cand
  ];
}

latest_candidate-IsPick :
    (lead : ℕ) (t : Table Contract) (q : ℕ × Contract)
    → latest_candidate lead t ≡ some q
    → IsPick lead t q
unfolding latest_candidate
latest_candidate-IsPick lead [] q h = cc
latest_candidate-IsPick lead ((k, c) ∷ t) q h = elim (Bool-cases (is_activation_candidate lead c)) [
  | inr out ↦
      IsPick-there lead k c t q (latest_candidate-IsPick lead t q (rw (out, latest_candidate) at h))
        (λ fits. cc)
  | inl fits ↦ elim (Option-cases (latest_candidate lead t)) [
    | inl empty ↦
        let own : some (k, c) ≡ some q = rw (fits, empty, latest_candidate) at h in
        let same : (k, c) ≡ q = cc in
        subst (λ x. IsPick lead ((k, c) ∷ t) x) same
          (IsPick-here lead k c t fits
            (λ j d m cand. absurd (cc (latest_candidate-none lead t empty j d m, cand))))
    | inr ((i, b), hit) ↦
        let tail = latest_candidate-IsPick lead t (i, b) hit in
        elim (Bool-cases (ltb (completed_rank c) (completed_rank b))) [
          | inl later ↦
              let own : some (i, b) ≡ some q = rw (fits, hit, later, latest_candidate) at h in
              let same : (i, b) ≡ q = cc in
              subst (λ x. IsPick lead ((k, c) ∷ t) x) same
                (IsPick-there lead k c t (i, b) tail (λ _. ground arith))
          | inr earlier ↦
              let own : some (k, c) ≡ some q = rw (fits, hit, earlier, latest_candidate) at h in
              let same : (k, c) ≡ q = cc in
              subst (λ x. IsPick lead ((k, c) ∷ t) x) same
                (IsPick-here lead k c t fits
                  (λ j d m cand. let top = tail.latest j d m cand in ground arith))
        ]
  ]
]

-- What activates a customer: the latest candidate, with its current version, of which it has the
-- signed evidence.
pub record IsActivatable (lead : ℕ) (versions : Table Version) (contracts : Table Contract)
    (w : WithVersion) : Type 0 where
  pub pick : IsPick lead contracts (w.id, w.contract)
  pub version : lookup w.contract.current_version_id versions ≡ some w.version
  pub owned : w.version.contract_id ≡ w.id
  pub signed : matches_evidence w w.contract.final_evidence ≡ true

loaded-IsActivatable :
    (lead id : ℕ) (c : Contract) (versions : Table Version) (contracts : Table Contract)
    (w : WithVersion)
    → IsPick lead contracts (id, c)
    → load_current versions id c ≡ some w
    → matches_evidence w c.final_evidence ≡ true
    → IsActivatable lead versions contracts w
unfolding load_current
loaded-IsActivatable lead id c versions contracts w pick e signed =
    elim (find_one-cases c.current_version_id (λ v. v.contract_id == id) versions) [
      | inl missed ↦ let no : none ≡ some w = rw (missed, load_current) at e in cc
      | inr (v, found, owned, hit) ↦
          let made : some (answer id c v) ≡ some w = rw (hit, load_current) at e in
          let same : answer id c v ≡ w = cc in
          subst
            (λ x.
              matches_evidence x c.final_evidence ≡ true → IsActivatable lead versions contracts x)
            same
            (λ fine. record { pick = pick; version = found; owned = ground arith; signed = fine })
            signed
    ]
  where
    answer : ℕ → Contract → Version → WithVersion
    answer id c v = record { id = id; contract = c; version_id = c.current_version_id; version = v }

-- A contract that is offered for activation is a stored candidate (completed, confirmed by a
-- provider other than the demo, archived as verified, eligible, with a customer and a signed PDF),
-- no candidate of the lead was completed later, and its evidence is that of its current version,
-- whose canonical document has the digest that the evidence gives.
pub find_activation_eligible-IsActivatable :
    (lead : ℕ) (versions : Table Version) (contracts : Table Contract) (w : WithVersion)
    → find_activation_eligible lead versions contracts ≡ some w
    → IsActivatable lead versions contracts w
unfolding find_activation_eligible
find_activation_eligible-IsActivatable lead versions contracts w e =
    elim (Option-cases (latest_candidate lead contracts)) [
      | inl empty ↦ let no : none ≡ some w = rw (empty, find_activation_eligible) at e in cc
      | inr ((id, c), hit) ↦ elim (Option-cases (load_current versions id c)) [
        | inl missing ↦
            let no : none ≡ some w = rw (hit, missing, find_activation_eligible) at e in cc
        | inr (v, loaded) ↦ elim (Bool-cases (matches_evidence v c.final_evidence)) [
          | inr wrong ↦
              let no : none ≡ some w = rw (hit, loaded, wrong, find_activation_eligible) at e in cc
          | inl signed ↦
              let yes : some v ≡ some w = rw (hit, loaded, signed, find_activation_eligible) at e in
              let same : v ≡ w = cc in
              loaded-IsActivatable lead id c versions contracts w
                (latest_candidate-IsPick lead contracts (id, c) hit) (loaded ∙ ap some same)
                (rw same at signed)
        ]
      ]
    ]
