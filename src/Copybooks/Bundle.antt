-- ===== src/Copybooks/Bundle.antt =====
-- analyzeBundle as a whole.
use alsm_web_be.Base.{
  ◌+◌, ◌<◌, Bool, true, false, ◌&&◌, ◌||◌, ◌≡◌, ◌≢◌, ◌↔◌, refl, sym, ◌∙◌, Option, none, some, List,
  [], ◌∷◌, length, arith, Bool-cases, inl, inr, exists_value,
}
use alsm_web_be.Copybooks.Units.{Units, same_units, same_units_iff, includes, get, set, get-set}
use alsm_web_be.Copybooks.Names.{normalize_copy_name}
use alsm_web_be.Copybooks.Entries.{Entries, is_fully_resolved}
use alsm_web_be.Copybooks.Resolver.{
  BundleFile, Index, Contents, Cache, Results, ProgramStatus, ProgramAnalysis, analysis,
  build_copybook_index, contents_of, is_program, resolve_program, analyze_files, analyze_bundle,
}
use alsm_web_be.Copybooks.Reference.{IsReady}
use alsm_web_be.Copybooks.Paths.{unvisited, unvisited-le}
use alsm_web_be.Copybooks.Candidates.{
  names_of, candidates, candidates-includes, appended, get-build_copybook_index,
  length-build_copybook_index,
}
use alsm_web_be.Copybooks.Agreement.{Agrees, IsCached, IsPath, IsCorrect}
use alsm_web_be.Copybooks.Correct.{resolve_lem}
use alsm_web_be.Copybooks.Indexed.{bundle-IsIndexed, bundle-OwnsKey}

includes-one : (k n : Units) → includes n (k ∷ []) ≡ true → k ≡ n
unfolding includes
includes-one k n on = (same_units_iff k n).0 (ground arith)

includes-not_nil : (n : Units) (l : List Units) → includes n l ≡ true → l ≢ []
unfolding includes
includes-not_nil n [] h e = cc
includes-not_nil n (m ∷ l) h e = cc

appended-some :
    (l : List Units) → l ≢ [] → (g : Units) × (gs : List Units) × (appended none l ≡ some (g ∷ gs))
unfolding appended
appended-some [] h = absurd (h refl)
appended-some (g ∷ gs) h = (g, gs, refl)

pub ready_iff :
    (program : Units) (es : Entries)
    → ((analysis program es).status ≡ ProgramStatus.ready_for_conversion)
      ↔ (is_fully_resolved es ≡ true)
ready_iff program es = elim (Bool-cases (is_fully_resolved es)) [
  | inl full ↦ (λ _. full, λ _. rw full)
  | inr partial ↦ (
    λ e.
        let e' : ProgramStatus.blocked ≡ ProgramStatus.ready_for_conversion = rw partial at e in cc,
    λ e. cc,
  )
]

module _ (to_lower : Units → Units) (files : List BundleFile) where
  abbrev index : Index
  index = build_copybook_index to_lower files

  abbrev contents : Contents
  contents = contents_of files

  abbrev IsRight : Units → ProgramAnalysis → Type 0
  IsRight n a =
      candidates to_lower (normalize_copy_name to_lower n) files ≡ n ∷ []
      → (a.status ≡ ProgramStatus.ready_for_conversion) ↔ IsReady to_lower contents index n

  root_key :
      (f : Units)
      → includes f (names_of files) ≡ true
      → (g : Units) × (gs : List Units) × (get (normalize_copy_name to_lower f) index
          ≡ some (g ∷ gs))
  root_key f h =
      let k : Units = normalize_copy_name to_lower f in
      let (g, gs, e) = appended-some (candidates to_lower k files) (
        includes-not_nil f (candidates to_lower k files)
          (candidates-includes to_lower f files h)) in
      (g, gs, get-build_copybook_index to_lower k files ∙ e)

  root-IsPath :
      (f : Units)
      → includes f (names_of files) ≡ true
      → IsPath to_lower contents index (normalize_copy_name to_lower f ∷ []) f
  root-IsPath f h = record {
    known = λ n on.
        let e = includes-one (normalize_copy_name to_lower f) n on in rw (← e) (root_key f h);
    above = λ n g on there height ready.
        let e = includes-one (normalize_copy_name to_lower f) n on in
        let same : g ≡ f = bundle-OwnsKey to_lower contents files f h g (rw e there) in
        rw (← same) ready;
  }

  fuel_lem : (path : List Units) → unvisited index path < length files + 1
  fuel_lem path = omega (arith, unvisited-le index path, length-build_copybook_index to_lower files)

  -- One program, with the fuel of the bundle.
  program_lem :
      (f : Units) (cache : Cache)
      → includes f (names_of files) ≡ true
      → IsCached to_lower contents index cache
      → IsCorrect to_lower contents index
          (resolve_program to_lower (length files + 1) f contents index cache)
          f
  unfolding resolve_program
  program_lem f cache h cached =
      resolve_lem to_lower contents index (bundle-IsIndexed to_lower contents files)
        (length files + 1) f (normalize_copy_name to_lower f ∷ []) cache
        (fuel_lem (normalize_copy_name to_lower f ∷ [])) (root-IsPath f h)
        (bundle-OwnsKey to_lower contents files f h) cached

  analysis-IsRight :
      (f : Units) (es : Entries)
      → (get (normalize_copy_name to_lower f) index ≡ some (f ∷ [])
          → Agrees to_lower contents index es f)
      → IsRight f (analysis f es)
  unfolding appended
  analysis-IsRight f es agrees one =
      let a =
        agrees
          (rw (get-build_copybook_index to_lower (normalize_copy_name to_lower f) files, one)) in
      (λ e. a.sound ((ready_iff f es).0 e), λ r. (ready_iff f es).1 (a.complete r))

  -- What the loop gives for the files that are left.
  record IsAnalyzed (o : Option Results) (left : List BundleFile) (old : Results) : Type 0 where
    results : Results
    result : o ≡ some results
    right : (n : Units) (a : ProgramAnalysis) → get n results ≡ some a → IsRight n a
    programs :
        (n : Units)
        → exists_value (get n results)
          ≡ (exists_value (get n old) || (includes n (names_of left) && is_program to_lower n))

  IsRight-set :
      (f : Units) (a : ProgramAnalysis) (old : Results)
      → IsRight f a
      → ((n : Units) (b : ProgramAnalysis) → get n old ≡ some b → IsRight n b)
      → (n : Units) (b : ProgramAnalysis) → get n (set f a old) ≡ some b
      → IsRight n b
  IsRight-set f a old mine others n b e = elim (Bool-cases (same_units f n)) [
    | inl same ↦
        let eq : f ≡ n = (same_units_iff f n).0 same in
        let known : some a ≡ some b = rw (get-set f n a old, same) at e in
        let eqa : a ≡ b = cc in rw (← eq, ← eqa) mine
    | inr other ↦ others n b (rw (get-set f n a old, other) at e)
  ]

  skipped_programs :
      (f n : Units) (fs : List Units) (old : Bool)
      → is_program to_lower f ≡ false
      → (old || (includes n fs && is_program to_lower n))
        ≡ (old || (includes n (f ∷ fs) && is_program to_lower n))
  unfolding includes
  skipped_programs f n fs old other = elim (Bool-cases (same_units f n)) [
    | inl same ↦
        let e : f ≡ n = (same_units_iff f n).0 same in
        let none_here : is_program to_lower n ≡ false = rw (← e) other in ground arith
    | inr apart ↦ rw apart
  ]

  stored_programs :
      (f n : Units) (fs : List Units) (a : ProgramAnalysis) (old : Results)
      → is_program to_lower f ≡ true
      → (exists_value (get n (set f a old)) || (includes n fs && is_program to_lower n))
        ≡ (exists_value (get n old) || (includes n (f ∷ fs) && is_program to_lower n))
  unfolding includes
  stored_programs f n fs a old program = elim (Bool-cases (same_units f n)) [
    | inl same ↦
        let e : f ≡ n = (same_units_iff f n).0 same in
        let here : is_program to_lower n ≡ true = rw (← e) program in
        rw (get-set f n a old, same, here) (ground arith)
    | inr apart ↦ rw (get-set f n a old, apart)
  ]

  analyze_files_lem :
      (left : List BundleFile) (cache : Cache) (old : Results)
      → ((n : Units) → includes n (names_of left) ≡ true → includes n (names_of files) ≡ true)
      → IsCached to_lower contents index cache
      → ((n : Units) (a : ProgramAnalysis) → get n old ≡ some a → IsRight n a)
      → IsAnalyzed
          (analyze_files to_lower (length files + 1) contents index left cache old)
          left
          old
  unfolding analyze_files includes
  analyze_files_lem [] cache old inside cached right = record {
    results = old;
    result = refl;
    right = right;
    programs = λ n. ground arith;
  }
  analyze_files_lem (f ∷ fs) cache old inside cached right =
      elim (Bool-cases (is_program to_lower f.name)) [
        | inr other ↦
            let rest =
              analyze_files_lem fs cache old (λ n h. inside n (ground arith)) cached right in
            record {
              results = rest.results;
              result = rw (other, rest.result, analyze_files);
              right = rest.right;
              programs = λ n.
                  rest.programs n
                  ∙ skipped_programs f.name n (names_of fs) (exists_value (get n old)) other;
            }
        | inl program ↦
            let one =
              program_lem f.name cache
                (inside f.name (ground (arith, same_units_iff f.name f.name))) cached in
            let rest =
              analyze_files_lem fs one.cache (set f.name (analysis f.name one.entries) old)
                (λ n h. inside n (ground arith)) one.cached
                (IsRight-set f.name (analysis f.name one.entries) old
                  (analysis-IsRight f.name one.entries one.agrees) right) in
            record {
              results = rest.results;
              result = rw (program, one.result, rest.result, analyze_files);
              right = rest.right;
              programs = λ n.
                  rest.programs n
                  ∙ stored_programs f.name n (names_of fs) (analysis f.name one.entries) old
                      program;
            }
      ]

  bundle_lem : IsAnalyzed (analyze_bundle to_lower files) files []
  unfolding analyze_bundle get
  bundle_lem = analyze_files_lem files [] [] (λ n h. h) (λ k es g e. cc) (λ n a e. cc)

  -- The analysis of a bundle ends: with one more unit of fuel than the bundle has files it never
  -- runs out, cyclic copybooks included, and its results hold exactly the names of the bundle
  -- with an extension of a program.
  pub analyze_bundle-total :
      (results : Results) × (analyze_bundle to_lower files ≡ some results)
      × ((n : Units)
          → exists_value (get n results) ≡ (includes n (names_of files) && is_program to_lower n))
  unfolding get
  analyze_bundle-total = (bundle_lem.results, bundle_lem.result, bundle_lem.programs)

  -- For a program whose normalized name no other file of the bundle has, the analysis with its
  -- cache and its path of visited names says ready for conversion if and only if all its COPY
  -- statements, followed to some finite depth, name one file or a system copybook that was not
  -- uploaded, whatever else the bundle holds and in whatever order.
  pub analyze_bundle-IsReady :
      (results : Results) (program : Units) (a : ProgramAnalysis)
      → analyze_bundle to_lower files ≡ some results
      → get program results ≡ some a
      → candidates to_lower (normalize_copy_name to_lower program) files ≡ program ∷ []
      → (a.status ≡ ProgramStatus.ready_for_conversion)
        ↔ IsReady to_lower (contents_of files) (build_copybook_index to_lower files) program
  analyze_bundle-IsReady results program a run there unique =
      let known : some bundle_lem.results ≡ some results = sym bundle_lem.result ∙ run in
      let same : results ≡ bundle_lem.results = cc in
      bundle_lem.right program a (rw same at there) unique
