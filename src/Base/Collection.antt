-- ===== src/Base/Collection.antt =====
-- A collection keyed by document id, and the queries that scan it.
use Prim.Native.Nat.{ℕ}
use mathlib.Core.Path.{◌≡◌, refl, sym}
use mathlib.Core.Logic.{◌≢◌, ◌⊎◌, inl, inr}
use mathlib.Core.Bool.{Bool, true, false, ◌||◌}
use mathlib.Core.Option.{Option, none, some}
use mathlib.Core.List.{List, [], ◌∷◌}
use native.Mathlib.Omega.{arith}
use alsm_web_be.Base.Tests.{◌==◌, ==_iff, Bool-cases, Option-cases, if◌then◌else◌}

abbrev pub Table {ℓ} : Type ℓ → Type ℓ
Table V = List (ℕ × V)

module _ {ℓ} {V : Type ℓ} where
  -- `findById`
  unfoldable pub lookup : ℕ → Table V → Option V
  lookup k [] = none
  lookup k ((j, v) ∷ t) = if j == k then some v else lookup k t

  -- Writes the document with this id, or adds it.
  unfoldable pub insert : ℕ → V → Table V → Table V
  insert k v [] = (k, v) ∷ []
  insert k v ((j, w) ∷ t) = if j == k then (k, v) ∷ t else (j, w) ∷ insert k v t

  -- `findOne` by an id together with other conditions.
  unfoldable pub find_one : ℕ → (V → Bool) → Table V → Option V
  find_one k p t = elim (lookup k t) [ none ↦ none | some v ↦ if p v then some v else none ]

  -- `findOne` by conditions that do not name the id: the first match.
  unfoldable pub find_first : (ℕ → V → Bool) → Table V → Option (ℕ × V)
  find_first p [] = none
  find_first p ((k, v) ∷ t) = if p k v then some (k, v) else find_first p t

  -- Whether some document meets the conditions, as a unique index asks on an insert.
  unfoldable pub any_entry : (ℕ → V → Bool) → Table V → Bool
  any_entry p [] = false
  any_entry p ((k, v) ∷ t) = p k v || any_entry p t

  pub lookup-insert :
      (k j : ℕ) (v : V) (t : Table V)
      → lookup j (insert k v t) ≡ (if k == j then some v else lookup j t)
  unfolding lookup insert
  lookup-insert k j v [] = refl
  lookup-insert k j v ((i, w) ∷ t) = ground (arith, lookup-insert k j v t)

  pub lookup-insert_self : (k : ℕ) (v : V) (t : Table V) → lookup k (insert k v t) ≡ some v
  lookup-insert_self k v t = ground (arith, lookup-insert k k v t)

  pub lookup-insert_ne :
      (k j : ℕ) (v : V) (t : Table V) → j ≢ k → lookup j (insert k v t) ≡ lookup j t
  lookup-insert_ne k j v t h = ground (arith, lookup-insert k j v t)

  -- What is found after a write is what was written, or was there before under another id.
  pub lookup-insert_cases :
      (k j : ℕ) (v d : V) (t : Table V)
      → lookup j (insert k v t) ≡ some d
      → ((j ≡ k) × (d ≡ v)) ⊎ ((j ≢ k) × (lookup j t ≡ some d))
  lookup-insert_cases k j v d t h = elim (Bool-cases (k == j)) [
    | inl same ↦
        let found : some v ≡ some d = rw (lookup-insert k j v t, same) at h in
        inl (sym ((==_iff k j).0 same), cc)
    | inr other ↦ inr ((λ e. cc ((==_iff k j).1 (sym e))), rw (lookup-insert k j v t, other) at h)
  ]

  pub find_one-cases :
      (k : ℕ) (p : V → Bool) (t : Table V)
      → (find_one k p t ≡ none)
        ⊎ ((v : V) × (lookup k t ≡ some v) × (p v ≡ true) × (find_one k p t ≡ some v))
  unfolding find_one
  find_one-cases k p t = elim (Option-cases (lookup k t)) [
    | inl missing ↦ inl (rw (missing, find_one))
    | inr (v, found) ↦ elim (Bool-cases (p v)) [
      | inl passed ↦ inr (v, found, passed, rw (found, passed, find_one))
      | inr failed ↦ inl (rw (found, failed, find_one))
    ]
  ]

  -- A document written under a new id is found by a scan that found nothing before.
  pub find_first-insert :
      (p : ℕ → V → Bool) (k : ℕ) (v : V) (t : Table V)
      → find_first p t ≡ none
      → lookup k t ≡ none
      → p k v ≡ true
      → find_first p (insert k v t) ≡ some (k, v)
  unfolding find_first insert lookup
  find_first-insert p k v [] h f e = rw e
  find_first-insert p k v ((j, w) ∷ t) h f e = ground (arith, find_first-insert p k v t)

  pub found_one :
      (t : Table V) (k : ℕ) (p : V → Bool) (v : V)
      → lookup k t ≡ some v
      → p v ≡ true
      → find_one k p t ≡ some v
  unfolding find_one
  found_one t k p v found fits = rw (found, fits, find_one)

  pub missed_one :
      (t : Table V) (k : ℕ) (p : V → Bool) (v : V)
      → lookup k t ≡ some v
      → p v ≡ false
      → find_one k p t ≡ none
  unfolding find_one
  missed_one t k p v found out = rw (found, out, find_one)
