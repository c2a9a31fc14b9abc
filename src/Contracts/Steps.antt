-- ===== src/Contracts/Steps.antt =====
-- What one repository call may do to the store, as a relation, and what follows from it alone.
use alsm_web_be.Base.{
  ℕ, ◌≤◌, ◌==◌, String, Bool, true, false, ◌≡◌, refl, ◌≢◌, ◌∙◌, Option, none, some, Table, lookup,
  insert, lookup-insert_self, lookup-insert_ne, Bool-cases, ==_iff, inl, inr, arith, if◌then◌else◌,
}
use alsm_web_be.Contracts.Types.{ManifestBody, Version, Contract}
use alsm_web_be.Contracts.Store.{Store, Error, Outcome, done, raise}
use alsm_web_be.Contracts.Invariant.{
  HasTemplate, Preserves, Preserves-refl, Grows, IsSound, IsConsistent, put-IsConsistent,
  keep-IsConsistent,
}

-- What no write changes in a contract, and the revision that each write raises.
pub record Continues (c d : Contract) : Type 0 where
  pub lead : d.lead_id ≡ c.lead_id
  pub organization : d.organization_id ≡ c.organization_id
  pub number : d.contract_number ≡ c.contract_number
  pub creator : d.created_by_user_id ≡ c.created_by_user_id
  pub request : d.create_request_id ≡ c.create_request_id
  pub fingerprint : d.create_request_fingerprint ≡ c.create_request_fingerprint
  pub revision : c.revision ≤ d.revision

pub Continues-refl : (c : Contract) → Continues c c
Continues-refl c = ground arith

Continues-trans : {c d e : Contract} → Continues c d → Continues d e → Continues c e
Continues-trans p q = record {
  lead = q.lead ∙ p.lead;
  organization = q.organization ∙ p.organization;
  number = q.number ∙ p.number;
  creator = q.creator ∙ p.creator;
  request = q.request ∙ p.request;
  fingerprint = q.fingerprint ∙ p.fingerprint;
  revision = omega arith;
}

module _ (digest : ManifestBody → String) where
  pub data Step (s : Store) : Store → Type 0 where
    stay : Step s s
    put :
        (k : ℕ) (c : Contract) (new : Table Version)
        → Grows k s.versions new
        → ((j : ℕ) (v : Version) → lookup j new ≡ some v → HasTemplate v)
        → IsSound digest new k c
        → ((old : Contract) → lookup k s.contracts ≡ some old → Continues old c)
        → Step s (record s { contracts = insert k c s.contracts; versions = new })
    document :
        (new : Table Version)
        → ((k : ℕ) → Grows k s.versions new)
        → ((j : ℕ) (v : Version) → lookup j new ≡ some v → HasTemplate v)
        → Step s (record s { versions = new })

  pub Step-IsConsistent : {s t : Store} → Step s t → IsConsistent digest s → IsConsistent digest t
  Step-IsConsistent stay h = h
  Step-IsConsistent {s} (put k c new g t ok _) h = put-IsConsistent digest s k c new h g t ok
  Step-IsConsistent {s} (document new g t) h = keep-IsConsistent digest s new h g t

-- Everything that was stored is still there, and has kept what no call changes.
pub record Keeps (s t : Store) : Type 0 where
  pub versions :
      (k : ℕ) (v : Version)
      → lookup k s.versions ≡ some v
      → (w : Version) × (lookup k t.versions ≡ some w) × Preserves v w
  pub contracts :
      (k : ℕ) (c : Contract)
      → lookup k s.contracts ≡ some c
      → (d : Contract) × (lookup k t.contracts ≡ some d) × Continues c d

Grows-Preserves :
    (k : ℕ) (old new : Table Version)
    → Grows k old new
    → (j : ℕ) (v : Version) → lookup j old ≡ some v
    → (w : Version) × (lookup j new ≡ some w) × Preserves v w
Grows-Preserves k old new g j v h = let (w, found, p, _) = g j v h in (w, found, p)

pub Keeps-refl : (s : Store) → Keeps s s
Keeps-refl s = record {
  versions = λ k v h. (v, h, Preserves-refl v);
  contracts = λ k c h. (c, h, Continues-refl c);
}

insert-Continues :
    (k : ℕ) (c : Contract) (t : Table Contract)
    → ((old : Contract) → lookup k t ≡ some old → Continues old c)
    → (j : ℕ) (b : Contract) → lookup j t ≡ some b
    → (d : Contract) × (lookup j (insert k c t) ≡ some d) × Continues b d
insert-Continues k c t ok j b h = elim (Bool-cases (j == k)) [
  | inl same ↦
      let e : j ≡ k = (==_iff j k).0 same in (c, rw e (lookup-insert_self k c t), ok b (rw e at h))
  | inr other ↦ (b, lookup-insert_ne k j c t (λ e. cc ((==_iff j k).1 e)) ∙ h, Continues-refl b)
]

pub Step-Keeps : (digest : ManifestBody → String) {s t : Store} → Step digest s t → Keeps s t
Step-Keeps digest {s} stay = Keeps-refl s
Step-Keeps digest {s} (put k c new g _ _ ok) = record {
  versions = Grows-Preserves k s.versions new g;
  contracts = insert-Continues k c s.contracts ok;
}
Step-Keeps digest {s} (document new g _) = record {
  versions = Grows-Preserves 0 s.versions new (g 0);
  contracts = λ k c h. (c, h, Continues-refl c);
}

pub Keeps-trans : {s t u : Store} → Keeps s t → Keeps t u → Keeps s u
Keeps-trans a b = record {
  versions = λ k v h.
      let (w, found, p) = a.versions k v h in
      let (x, there, q) = b.versions k w found in
      (
        x,
        there,
        record {
          owner = q.owner ∙ p.owner;
          number = q.number ∙ p.number;
          terms = q.terms ∙ p.terms;
          canonical = λ d e. q.canonical d (p.canonical d e);
        },
      );
  contracts = λ k c h.
      let (d, found, p) = a.contracts k c h in
      let (f, there, q) = b.contracts k d found in (f, there, Continues-trans p q);
}

-- A call that returned null has returned no document, and an aborted one has not returned.
pub done-none-ne :
    {A : Type 0} {s t : Store} {w : A} → (let r : Outcome A = done none s in r) ≢ done (some w) t
done-none-ne e = cc

pub raise-ne-done :
    {A : Type 0} {x : Error} {o : Option A} {t : Store}
    → (let r : Outcome A = raise x in r) ≢ done o t
raise-ne-done e = cc

pub done-injective :
    {A : Type 0} {a b : Option A} {s t : Store} → done a s ≡ done b t → (a ≡ b) × (s ≡ t)
done-injective e = (cc, cc)

-- What holds of the store that a call leaves; an aborted call leaves none.
pub data Ends {A : Type 0} (P : Store → Type 0) : Outcome A → Type 0 where
  ended : {a : Option A} {s : Store} → P s → Ends P (done a s)
  aborted : {e : Error} → Ends P (raise e)

pub Ends-done :
    {A : Type 0} {P : Store → Type 0} {a : Option A} {s : Store} → Ends P (done a s) → P s
Ends-done (ended p) = p

-- A test in a call: both branches are to be shown.
pub Ends-if :
    {A : Type 0} (P : Store → Type 0) (b : Bool) (x y : Outcome A)
    → (b ≡ true → Ends P x)
    → (b ≡ false → Ends P y)
    → Ends P (if b then x else y)
Ends-if P true x y f g = f refl
Ends-if P false x y f g = g refl
