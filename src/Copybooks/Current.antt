-- ===== src/Copybooks/Current.antt =====
-- The trees that the resolver makes: which statuses they hold, and where.
use alsm_web_be.Base.{
  ℕ, zero, suc, Bool, true, false, not, ◌&&◌, ◌||◌, ◌≡◌, refl, Option, none, some, List, [], ◌∷◌,
  ◌++◌, arith, Bool-cases, Option-cases, inl, inr,
}
use alsm_web_be.Copybooks.Units.{Units, same_units, includes, get, get-set}
use alsm_web_be.Copybooks.Statements.{Statement, extract_copy_statements}
use alsm_web_be.Copybooks.Names.{normalize_copy_name, is_system_copybook}
use alsm_web_be.Copybooks.Entries.{Entry, entry, Entries, nil, cons, is_resolved, is_missing}
use alsm_web_be.Copybooks.Resolver.{
  Index, Contents, Cache, Resolution, followed, stored, found, circular, absent, several,
  unresolved, resolve_copy_name, resolve_statement, resolve_statements, resolve_dependencies_of,
  resolve_program,
}

abbrev is_nil : Entries → Bool
is_nil nil = true
is_nil (cons e es) = false

module _ (to_lower : Units → Units) where
  -- As the resolver writes a tree: a missing copybook is no system copybook, and only an entry
  -- that is resolved has entries below it.
  unfoldable mutual
    pub is_current : Entries → Bool
    is_current nil = true
    is_current (cons e es) = is_current_entry e && is_current es

    pub is_current_entry : Entry → Bool
    is_current_entry (entry r below) =
        not (is_missing r.status && is_system_copybook to_lower r.copy_name)
        && (is_resolved r.status || is_nil below)
        && is_current below

  -- The results that are possible, by a property of the tree.
  unfoldable pub AllCurrent : Cache → Type 0
  AllCurrent cache = (k : Units) (es : Entries) → get k cache ≡ some es → is_current es ≡ true

  abbrev pub IsCurrent : Option (Entries × Cache) → Type 0
  IsCurrent none = Unit {0}
  IsCurrent (some (es, cache)) = (is_current es ≡ true) × AllCurrent cache

  abbrev IsCurrentEntry : Option (Entry × Cache) → Type 0
  IsCurrentEntry none = Unit {0}
  IsCurrentEntry (some (e, cache)) = (is_current_entry e ≡ true) × AllCurrent cache

  followed-IsCurrent :
      (s : Statement) (g : Units) (o : Option (Entries × Cache))
      → IsCurrent o
      → IsCurrentEntry (followed s g o)
  unfolding found is_current_entry
  followed-IsCurrent s g none h = h
  followed-IsCurrent s g (some (es, cache)) h = (ground (arith, h.0), h.1)

  stored-IsCurrent :
      (key : Units) (o : Option (Entries × Cache)) → IsCurrent o → IsCurrent (stored key o)
  unfolding AllCurrent
  stored-IsCurrent key none h = h
  stored-IsCurrent key (some (es, cache)) h = (
    h.0,
    λ k ds there. elim (Bool-cases (same_units key k)) [
      | inl same ↦
          let known : some es ≡ some ds = rw (get-set key k es cache, same) at there in
          let eq : es ≡ ds = cc in rw (← eq) h.0
      | inr other ↦ h.1 k ds (rw (get-set key k es cache, other) at there)
    ],
  )

  absent-current : (s : Statement) (f : Units) → is_current_entry (absent to_lower s f) ≡ true
  unfolding absent unresolved is_current_entry
  absent-current s f = ground arith

  resolve_statement-IsCurrent :
      (recur : Units → List Units → Cache → Option (Entries × Cache))
      → ((f : Units) (path : List Units) (cache : Cache)
          → AllCurrent cache
          → IsCurrent (recur f path cache))
      → (index : Index) (f : Units) (path : List Units) (s : Statement) (cache : Cache)
      → AllCurrent cache
      → IsCurrentEntry (resolve_statement to_lower recur index f path s cache)
  unfolding resolve_statement is_current_entry circular several unresolved
  resolve_statement-IsCurrent recur below index f path s cache h =
      by_cycle (includes (normalize_copy_name to_lower s.copy_name) path)
    where
      by_resolution :
          (r : Resolution)
          → IsCurrentEntry (elim r as (λ _. Option (Entry × Cache)) [
            | Resolution.missing ↦ some (absent to_lower s f, cache)
            | Resolution.ambiguous candidates ↦ some (several s f candidates, cache)
            | Resolution.resolved g ↦
                followed s g (recur g (path ++ normalize_copy_name to_lower s.copy_name ∷ []) cache)
          ])
      by_resolution Resolution.missing = (absent-current s f, h)
      by_resolution (Resolution.ambiguous candidates) = (refl, h)
      by_resolution (Resolution.resolved g) =
          followed-IsCurrent s g _
            (below g (path ++ normalize_copy_name to_lower s.copy_name ∷ []) cache h)

      by_cycle :
          (b : Bool)
          → IsCurrentEntry (elim b as (λ _. Option (Entry × Cache)) [
            | true ↦ some (circular to_lower s f path, cache)
            | false ↦ elim (resolve_copy_name to_lower s.copy_name index) [
              | Resolution.missing ↦ some (absent to_lower s f, cache)
              | Resolution.ambiguous candidates ↦ some (several s f candidates, cache)
              | Resolution.resolved g ↦
                  followed s g
                    (recur g (path ++ normalize_copy_name to_lower s.copy_name ∷ []) cache)
            ]
          ])
      by_cycle true = (refl, h)
      by_cycle false = by_resolution (resolve_copy_name to_lower s.copy_name index)

  resolve_statements-IsCurrent :
      (recur : Units → List Units → Cache → Option (Entries × Cache))
      → ((f : Units) (path : List Units) (cache : Cache)
          → AllCurrent cache
          → IsCurrent (recur f path cache))
      → (index : Index) (f : Units) (path : List Units) (ss : List Statement) (cache : Cache)
      → AllCurrent cache
      → IsCurrent (resolve_statements to_lower recur index f path ss cache)
  unfolding resolve_statements is_current
  resolve_statements-IsCurrent recur below index f path [] cache h = (refl, h)
  resolve_statements-IsCurrent recur below index f path (s ∷ ss) cache h =
      by_first (resolve_statement to_lower recur index f path s cache)
        (resolve_statement-IsCurrent recur below index f path s cache h)
        (λ c. resolve_statements-IsCurrent recur below index f path ss c)
    where
      by_rest :
          (e : Entry) (o : Option (Entries × Cache))
          → is_current_entry e ≡ true
          → IsCurrent o
          → IsCurrent (elim o as (λ _. Option (Entries × Cache)) [
            | none ↦ none
            | some (es, c) ↦ some (cons e es, c)
          ])
      by_rest e none now later = later
      by_rest e (some (es, c)) now later = (ground (arith, later.0), later.1)

      by_first :
          (o : Option (Entry × Cache))
          → IsCurrentEntry o
          → ((c : Cache)
              → AllCurrent c
              → IsCurrent (resolve_statements to_lower recur index f path ss c))
          → IsCurrent (elim o as (λ _. Option (Entries × Cache)) [
            | none ↦ none
            | some (e, c) ↦ elim (resolve_statements to_lower recur index f path ss c) [
              | none ↦ none
              | some (es, d) ↦ some (cons e es, d)
            ]
          ])
      by_first none now later = now
      by_first (some (e, c)) now later =
          by_rest e (resolve_statements to_lower recur index f path ss c) now.0 (later c now.1)

  resolve_dependencies_of-IsCurrent :
      (fuel : ℕ) (contents : Contents) (index : Index) (f : Units) (path : List Units)
      (cache : Cache)
      → AllCurrent cache
      → IsCurrent (resolve_dependencies_of to_lower fuel contents index f path cache)
  unfolding resolve_dependencies_of is_current AllCurrent
  resolve_dependencies_of-IsCurrent zero contents index f path cache h = _
  resolve_dependencies_of-IsCurrent (suc fuel) contents index f path cache h =
      elim (Option-cases (get (normalize_copy_name to_lower f) cache)) [
        | inr (es, old) ↦
            rw (old, resolve_dependencies_of) (h (normalize_copy_name to_lower f) es old, h)
        | inl new ↦ elim (Option-cases (get f contents)) [
          | inl lost ↦ rw (new, lost, resolve_dependencies_of) (refl, h)
          | inr (content, there) ↦
              rw (new, there, resolve_dependencies_of)
                (stored-IsCurrent (normalize_copy_name to_lower f) _ (
                  resolve_statements-IsCurrent
                    (resolve_dependencies_of to_lower fuel contents index)
                    (resolve_dependencies_of-IsCurrent fuel contents index) index f path
                    (extract_copy_statements content) cache h))
        ]
      ]

  pub resolve_program-IsCurrent :
      (fuel : ℕ) (f : Units) (contents : Contents) (index : Index) (cache : Cache)
      → AllCurrent cache
      → IsCurrent (resolve_program to_lower fuel f contents index cache)
  unfolding resolve_program
  resolve_program-IsCurrent fuel f contents index cache h =
      resolve_dependencies_of-IsCurrent fuel contents index f (normalize_copy_name to_lower f ∷ [])
        cache h
