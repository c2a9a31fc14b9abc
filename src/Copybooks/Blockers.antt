-- ===== src/Copybooks/Blockers.antt =====
-- findCopybookBlockers on the trees that the resolver makes.
use alsm_web_be.Base.{
  ℕ, ◌+◌, Bool, true, false, ◌≡◌, ◌↔◌, refl, Option, none, some, List, [], ◌∷◌, ◌++◌, length, arith,
  Bool-cases, inl, inr,
}
use alsm_web_be.Copybooks.Units.{Units, same_units, get, set, get-set}
use alsm_web_be.Copybooks.Entries.{
  Entry, entry, Entries, nil, cons, is_fully_resolved, is_entry_resolved, is_non_blocking,
  find_copybook_blockers, entry_blockers,
}
use alsm_web_be.Copybooks.Resolver.{
  BundleFile, Index, Contents, Cache, Results, ProgramStatus, ProgramAnalysis, analysis,
  resolve_program, analyze_files, analyze_bundle, is_program,
}
use alsm_web_be.Copybooks.Bundle.{ready_iff}
use alsm_web_be.Copybooks.Current.{
  is_current, is_current_entry, AllCurrent, IsCurrent, resolve_program-IsCurrent,
}

module _ (to_lower : Units → Units) where
  append-nil : (l m : List Units) → (l ++ m ≡ []) ↔ ((l ≡ []) × (m ≡ []))
  append-nil [] m = (λ e. (refl, e), λ e. e.1)
  append-nil (x ∷ l) m = (λ e. cc, λ e. let h = e.0 in cc)

  mutual
    unfolding is_non_blocking is_current is_current_entry find_copybook_blockers entry_blockers
        is_fully_resolved is_entry_resolved

    pub blockers_iff :
        (es : Entries)
        → is_current to_lower es ≡ true
        → (find_copybook_blockers to_lower es ≡ []) ↔ (is_fully_resolved es ≡ true)
    blockers_iff nil h = (λ _. refl, λ _. refl)
    blockers_iff (cons e es) h =
        let nils = append-nil (entry_blockers to_lower e) (find_copybook_blockers to_lower es) in
        ground (arith, nils, entry_blockers_iff e, blockers_iff es)

    entry_blockers_iff :
        (e : Entry)
        → is_current_entry to_lower e ≡ true
        → (entry_blockers to_lower e ≡ []) ↔ (is_entry_resolved e ≡ true)
    entry_blockers_iff (entry r nil) h = ground arith
    entry_blockers_iff (entry r (cons d ds)) h = ground (arith, blockers_iff (cons d ds))

  abbrev IsConvertible : ProgramAnalysis → Type 0
  IsConvertible a =
      (find_copybook_blockers to_lower a.dependencies ≡ [])
      ↔ (a.status ≡ ProgramStatus.ready_for_conversion)

  abbrev AllConvertible : Option Results → Type 0
  AllConvertible none = Unit {0}
  AllConvertible (some results) =
      (n : Units) (a : ProgramAnalysis) → get n results ≡ some a → IsConvertible a

  analysis-IsConvertible :
      (f : Units) (es : Entries) → is_current to_lower es ≡ true → IsConvertible (analysis f es)
  analysis-IsConvertible f es h = (
    (λ e. (ready_iff f es).1 ((blockers_iff es h).0 e)),
    (λ e. (blockers_iff es h).1 ((ready_iff f es).0 e)),
  )

  convertible-set :
      (f : Units) (a : ProgramAnalysis) (old : Results)
      → IsConvertible a
      → AllConvertible (some old)
      → AllConvertible (some (set f a old))
  convertible-set f a old mine others n b e = elim (Bool-cases (same_units f n)) [
    | inl same ↦
        let known : some a ≡ some b = rw (get-set f n a old, same) at e in
        let eqa : a ≡ b = cc in rw (← eqa) mine
    | inr other ↦ others n b (rw (get-set f n a old, other) at e)
  ]

  analyze_files-AllConvertible :
      (fuel : ℕ) (contents : Contents) (index : Index) (left : List BundleFile) (cache : Cache)
      (old : Results)
      → AllCurrent to_lower cache
      → AllConvertible (some old)
      → AllConvertible (analyze_files to_lower fuel contents index left cache old)
  unfolding analyze_files
  analyze_files-AllConvertible fuel contents index [] cache old h right = right
  analyze_files-AllConvertible fuel contents index (f ∷ fs) cache old h right =
      by_kind (is_program to_lower f.name)
        (λ c new. analyze_files-AllConvertible fuel contents index fs c new)
    where
      by_answer :
          (o : Option (Entries × Cache))
          → IsCurrent to_lower o
          → ((c : Cache) (new : Results)
              → AllCurrent to_lower c
              → AllConvertible (some new)
              → AllConvertible (analyze_files to_lower fuel contents index fs c new))
          → AllConvertible (elim o as (λ _. Option Results) [
            | none ↦ none
            | some (es, c) ↦
                analyze_files to_lower fuel contents index fs c
                  (set f.name (analysis f.name es) old)
          ])
      by_answer none now later = _
      by_answer (some (es, c)) now later = later c (set f.name (analysis f.name es) old) now.1 (
          convertible-set f.name (analysis f.name es) old (analysis-IsConvertible f.name es now.0)
            right)

      by_kind :
          (b : Bool)
          → ((c : Cache) (new : Results)
              → AllCurrent to_lower c
              → AllConvertible (some new)
              → AllConvertible (analyze_files to_lower fuel contents index fs c new))
          → AllConvertible (elim b as (λ _. Option Results) [
            | false ↦ analyze_files to_lower fuel contents index fs cache old
            | true ↦ elim (resolve_program to_lower fuel f.name contents index cache) [
              | none ↦ none
              | some (es, c) ↦
                  analyze_files to_lower fuel contents index fs c
                    (set f.name (analysis f.name es) old)
            ]
          ])
      by_kind false later = later cache old h right
      by_kind true later =
          by_answer (resolve_program to_lower fuel f.name contents index cache)
            (resolve_program-IsCurrent to_lower fuel f.name contents index cache h) later

  bundle-AllConvertible : (files : List BundleFile) → AllConvertible (analyze_bundle to_lower files)
  unfolding analyze_bundle get AllCurrent
  bundle-AllConvertible files =
      analyze_files-AllConvertible (length files + 1) _ _ files [] [] (λ k es e. cc) (λ n a e. cc)

  -- On the dependency tree of any analyzed program, findCopybookBlockers returns no message if
  -- and only if the status of the program is ready for conversion.
  pub find_copybook_blockers-analyze_bundle :
      (files : List BundleFile) (results : Results) (program : Units) (a : ProgramAnalysis)
      → analyze_bundle to_lower files ≡ some results
      → get program results ≡ some a
      → (find_copybook_blockers to_lower a.dependencies ≡ [])
        ↔ (a.status ≡ ProgramStatus.ready_for_conversion)
  find_copybook_blockers-analyze_bundle files results program a run there =
      let h : AllConvertible (some results) = rw run at (bundle-AllConvertible files) in
      h program a there
