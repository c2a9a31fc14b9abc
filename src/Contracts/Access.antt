-- ===== src/Contracts/Access.antt =====
-- What a customer is shown by findForGrantedCustomer, in any state that the repository calls reach.
use mathlib.Core.List.{Memᴰ}
use alsm_web_be.Base.{
  ℕ, String, true, ◌==◌, ◌&&◌, ◌≡◌, ◌≢◌, refl, sym, ap, List, [], ◌∷◌, Option, trim, str_eq_iff,
  ◌∙◌, none, some, Table, lookup, find_one, find_one-cases, Option-cases, Bool-cases, exists_value,
  is_truthy, inl, inr, arith,
}
use alsm_web_be.Contracts.Types.{
  LifecycleStatus, same_lifecycle, ReviewStatus, VersionReviewStatus, ManifestBody, Version,
  Contract,
}
use alsm_web_be.Contracts.Store.{
  Store, Grant, WithVersion, is_reviewed, has_active_grant, load_current,
}
use alsm_web_be.Contracts.Invariant.{mirror, IsConsistent}
use alsm_web_be.Contracts.Trace.{Call, run, run-IsConsistent}
use alsm_web_be.Contracts.Viewing.{is_customer_visible, same_email, find_for_granted_customer}

record IsFoundFor (lower_case : String → String) (id user : ℕ) (email : String) (s : Store)
    (w : WithVersion) : Type 0 where
  stored : lookup id s.contracts ≡ some w.contract
  granted : has_active_grant w.contract.lead_id user s.grants ≡ true
  visible : is_customer_visible w.contract ≡ true
  version : lookup w.contract.current_version_id s.versions ≡ some w.version
  owned : w.version.contract_id ≡ id
  template : is_truthy w.version.terms.approved_template_version_id ≡ true
  text : exists_value w.version.terms.approved_template_snapshot ≡ true
  addressed : same_email lower_case w.version.terms.customer_email email ≡ true

-- What loading the current version of a contract returns.
loaded :
    (versions : Table Version) (id : ℕ) (c : Contract) (w : WithVersion)
    → load_current versions id c ≡ some w
    → (w.contract ≡ c)
      × (lookup c.current_version_id versions ≡ some w.version)
      × (w.version.contract_id ≡ id)
unfolding load_current find_one
loaded versions id c w e = ground arith

granted_visible :
    (lower_case : String → String) (id user : ℕ) (email : String) (s : Store) (c : Contract)
    (w : WithVersion)
    → lookup id s.contracts ≡ some c
    → (has_active_grant c.lead_id user s.grants && is_customer_visible c) ≡ true
    → load_current s.versions id c ≡ some w
    → (is_truthy w.version.terms.approved_template_version_id
        && exists_value w.version.terms.approved_template_snapshot
        && same_email lower_case w.version.terms.customer_email email)
      ≡ true
    → IsFoundFor lower_case id user email s w
granted_visible lower_case id user email s c w found fits load checks =
    let (same, version, owned) = loaded s.versions id c w load in
    record {
      stored = rw same found;
      granted = rw same (ground arith);
      visible = rw same (ground arith);
      version = rw same version;
      owned = owned;
      template = ground arith;
      text = ground arith;
      addressed = ground arith;
    }

find_for_granted_customer-IsFoundFor :
    (lower_case : String → String) (id user : ℕ) (email : String) (s : Store) (w : WithVersion)
    → find_for_granted_customer lower_case id user email s ≡ some w
    → IsFoundFor lower_case id user email s w
unfolding find_for_granted_customer
find_for_granted_customer-IsFoundFor lower_case id user email s w e =
    elim (find_one-cases id (λ c. has_active_grant c.lead_id user s.grants && is_customer_visible c)
      s.contracts) [
        | inl missed ↦ let no : none ≡ some w = rw (missed, find_for_granted_customer) at e in cc
        | inr (c, found, fits, hit) ↦ elim (Option-cases (load_current s.versions id c)) [
          | inl missing ↦
              let no : none ≡ some w = rw (hit, missing, find_for_granted_customer) at e in cc
          | inr (v, load) ↦
              elim (Bool-cases (
                is_truthy v.version.terms.approved_template_version_id
                && exists_value v.version.terms.approved_template_snapshot
                && same_email lower_case v.version.terms.customer_email email)) [
                  | inr wrong ↦
                      let no : none ≡ some w =
                        rw (hit, load, wrong, find_for_granted_customer) at e in
                      cc
                  | inl checks ↦
                      let yes : some v ≡ some w =
                        rw (hit, load, checks, find_for_granted_customer) at e in
                      let same : v ≡ w = cc in
                      granted_visible lower_case id user email s c w found fits
                        (load ∙ ap some same) (rw same at checks)
                ]
        ]
      ]

-- A grant that this user holds for this lead.
pub record HasGrant (lead user : ℕ) (grants : List Grant) : Type 0 where
  pub grant : Grant
  pub listed : Memᴰ grant grants
  pub for_lead : grant.lead_id ≡ lead
  pub for_user : grant.user_id ≡ user

granted_lem :
    (lead user : ℕ) (grants : List Grant)
    → has_active_grant lead user grants ≡ true
    → HasGrant lead user grants
unfolding has_active_grant
granted_lem lead user [] h = cc
granted_lem lead user (g ∷ gs) h = elim (Bool-cases (g.lead_id == lead && g.user_id == user)) [
  | inl fits ↦ record {
    grant = g;
    listed = Memᴰ.head refl;
    for_lead = ground (arith, fits);
    for_user = ground (arith, fits);
  }
  | inr other ↦
      let below = granted_lem lead user gs (rw other at h) in
      record {
        grant = below.grant;
        listed = Memᴰ.tail below.listed;
        for_lead = below.for_lead;
        for_user = below.for_user;
      }
]

-- What is true of a contract that a customer is shown.
pub record IsShown (lower_case : String → String) (id user : ℕ) (email : String) (s : Store)
    (w : WithVersion) : Type 0 where
  pub stored : lookup id s.contracts ≡ some w.contract
  pub granted : HasGrant w.contract.lead_id user s.grants
  pub version : lookup w.contract.current_version_id s.versions ≡ some w.version
  pub owned : w.version.contract_id ≡ id
  pub not_draft : w.contract.lifecycle_status ≢ LifecycleStatus.draft
  pub not_in_review : w.contract.lifecycle_status ≢ LifecycleStatus.internal_review
  pub version_not_draft : w.version.review_status ≢ VersionReviewStatus.draft
  pub version_not_in_review : w.version.review_status ≢ VersionReviewStatus.internal_review
  pub reviewer : ℕ
  pub reviewed : w.contract.reviewed_by_user_id ≡ some reviewer
  pub four_eyes : reviewer ≢ w.contract.created_by_user_id
  pub template : is_truthy w.version.terms.approved_template_version_id ≡ true
  pub text : exists_value w.version.terms.approved_template_snapshot ≡ true
  pub addressed : lower_case (trim w.version.terms.customer_email) ≡ lower_case (trim email)

mirror-reviewed :
    (r : ReviewStatus)
    → is_reviewed r ≡ true
    → (mirror r ≢ VersionReviewStatus.draft) × (mirror r ≢ VersionReviewStatus.internal_review)
unfolding is_reviewed
mirror-reviewed ReviewStatus.not_submitted h = cc
mirror-reviewed ReviewStatus.pending h = cc
mirror-reviewed ReviewStatus.approved h = (λ e. cc, λ e. cc)
mirror-reviewed ReviewStatus.changes_requested h = (λ e. cc, λ e. cc)
mirror-reviewed ReviewStatus.rejected h = (λ e. cc, λ e. cc)

visible_lem :
    (c : Contract)
    → is_customer_visible c ≡ true
    → (c.lifecycle_status ≢ LifecycleStatus.draft)
      × (c.lifecycle_status ≢ LifecycleStatus.internal_review)
      × (is_reviewed c.review_status ≡ true)
unfolding is_customer_visible same_lifecycle
visible_lem c h = (λ e. ground (arith, h), λ e. ground (arith, h), ground (arith, h))

the_value : (o : Option ℕ) → exists_value o ≡ true → (r : ℕ) × (o ≡ some r)
the_value none h = cc
the_value (some r) h = (r, refl)

module _ (lower_case : String → String) (digest : ManifestBody → String) where
  -- After any repository calls from a consistent store, a customer is shown a contract only if a
  -- grant of his for its lead is listed, it is stored under this id and neither a draft nor under
  -- internal review, and its current version is stored, its own, and neither a draft nor in review;
  -- somebody other than its creator has reviewed it; and the version names an approved template, has
  -- its text, and has the customer's e-mail address up to spaces around it and case.
  pub find_for_granted_customer-run :
      (calls : List Call) (s : Store) (id user : ℕ) (email : String) (w : WithVersion)
      → IsConsistent digest s
      → find_for_granted_customer lower_case id user email (run lower_case digest calls s) ≡ some w
      → IsShown lower_case id user email (run lower_case digest calls s) w
  unfolding same_email
  find_for_granted_customer-run calls s id user email w h e =
      let t = run lower_case digest calls s in
      let f = find_for_granted_customer-IsFoundFor lower_case id user email t w e in
      let sound = (run-IsConsistent lower_case digest calls s h).contracts id w.contract f.stored in
      let (not_draft, not_in_review, decided) = visible_lem w.contract f.visible in
      let (reviewer, named) =
        the_value w.contract.reviewed_by_user_id (sound.reviewed.named decided) in
      let same : sound.current.version ≡ w.version = cc (sym sound.current.found ∙ f.version) in
      let status : w.version.review_status ≡ mirror w.contract.review_status =
        ap (λ v. v.review_status) (sym same) ∙ sound.current.mirrored in
      let (no_draft, no_review) = mirror-reviewed w.contract.review_status decided in
      record {
        stored = f.stored;
        granted = granted_lem w.contract.lead_id user t.grants f.granted;
        version = f.version;
        owned = f.owned;
        not_draft = not_draft;
        not_in_review = not_in_review;
        version_not_draft = λ q. no_draft (sym status ∙ q);
        version_not_in_review = λ q. no_review (sym status ∙ q);
        reviewer = reviewer;
        reviewed = named;
        four_eyes = sound.reviewed.four_eyes reviewer named;
        template = f.template;
        text = f.text;
        addressed = (str_eq_iff _ _).0 f.addressed;
      }
