-- ===== src/Copybooks/Tests.antt =====
-- Runs of the resolver on small bundles.
use alsm_web_be.Base.{
  ◌≡◌, refl, Option, none, some, List, [], ◌∷◌, ◌++◌, map, all, length, true, ◌&&◌, ◌↔◌,
  exists_value,
}
use alsm_web_be.Copybooks.Units.{Units, units_of, same_units, includes, get, set}
use alsm_web_be.Copybooks.Statements.{extract_copy_statements, lines, strip_line, strip_comments}
use alsm_web_be.Copybooks.Names.{has_extension, normalize_copy_name}
use alsm_web_be.Copybooks.Entries.{Entries, is_fully_resolved, find_copybook_blockers}
use alsm_web_be.Copybooks.Extracted.{is_between}
use alsm_web_be.Copybooks.Lines.{lines-strip_comments, extract_copy_statements-lines}
use alsm_web_be.Copybooks.Candidates.{names_of, candidates, appended, get-build_copybook_index}
use alsm_web_be.Copybooks.Reference.{IsReady}
use alsm_web_be.Copybooks.Bundle.{analyze_bundle-total, analyze_bundle-IsReady}
use alsm_web_be.Copybooks.Blockers.{find_copybook_blockers-analyze_bundle}
use alsm_web_be.Copybooks.Resolver.{
  contents_of, is_program, ProgramAnalysis, build_copybook_index, BundleFile, ProgramStatus,
  Results, analyze_bundle,
}

abbrev plain : Units → Units
plain t = t

abbrev file : Units → Units → BundleFile
file name content = record { name = name; content = content }

abbrev new_line : Units
new_line = 10 ∷ []

abbrev statuses : Option Results → List ProgramStatus
statuses none = []
statuses (some []) = []
statuses (some ((n, a) ∷ rs)) = a.status ∷ statuses (some rs)

extract_runs :
    extract_copy_statements (
      units_of "      * COPY ZERO."
      ++ new_line
      ++ units_of " copy  a-1. *> COPY B"
      ++ new_line
      ++ units_of "COPY C2 COPYX D.")
    ≡ record { copy_name = units_of "a-1"; line_number = 2 }
      ∷ record { copy_name = units_of "C2"; line_number = 3 }
      ∷ []
unfolding extract_copy_statements
extract_runs = refl

ready_runs :
    statuses (
      analyze_bundle plain (
        file (units_of "src/main.cbl") (units_of " COPY A. COPY DFHAID.")
        ∷ file (units_of "lib/A.CPY") (units_of " COPY b.")
        ∷ file (units_of "b.cpy") []
        ∷ []))
    ≡ ProgramStatus.ready_for_conversion ∷ []
unfolding analyze_bundle includes same_units get set extract_copy_statements has_extension
    is_fully_resolved
ready_runs = refl

cycle_runs :
    statuses (
      analyze_bundle plain (
        file (units_of "main.cbl") (units_of " COPY A.")
        ∷ file (units_of "A.cpy") (units_of " COPY B.")
        ∷ file (units_of "b.cpy") (units_of " COPY A.")
        ∷ file (units_of "b.cob") []
        ∷ []))
    ≡ ProgramStatus.blocked ∷ ProgramStatus.ready_for_conversion ∷ []
unfolding analyze_bundle includes same_units get set extract_copy_statements has_extension
    is_fully_resolved
cycle_runs = refl

-- The pattern finds `COPY` inside a longer word.
hyphen_runs :
    extract_copy_statements (units_of " MOVE WS-COPY TO X.")
    ≡ record { copy_name = units_of "TO"; line_number = 1 } ∷ []
unfolding extract_copy_statements
hyphen_runs = refl

-- Two programs in different folders share the analysis of the first.
shared_runs :
    statuses (
      analyze_bundle plain (
        file (units_of "a/x.cbl") (units_of " STOP RUN.")
        ∷ file (units_of "b/x.cbl") (units_of " COPY LOST.")
        ∷ []))
    ≡ ProgramStatus.ready_for_conversion ∷ ProgramStatus.ready_for_conversion ∷ []
unfolding analyze_bundle includes same_units get set extract_copy_statements has_extension
    is_fully_resolved
shared_runs = refl

abbrev source : Units
source = units_of "      * COPY ZERO." ++ new_line ++ units_of " COPY A. *> COPY B"

abbrev bundle : List BundleFile
bundle =
    file (units_of "src/main.cbl") (units_of " COPY A. COPY DFHAID.")
    ∷ file (units_of "A.cpy") (units_of " COPY C.")
    ∷ file (units_of "c.cob") []
    ∷ []

abbrev results_of : Option Results → Results
results_of none = []
results_of (some results) = results

abbrev first_of : Results → ProgramAnalysis
first_of [] = record {
  program = [];
  status = ProgramStatus.not_analyzed;
  dependencies = Entries.nil;
}
first_of ((n, a) ∷ rs) = a

abbrev results : Results
results = results_of (analyze_bundle plain bundle)

bundle_run : analyze_bundle plain bundle ≡ some results
unfolding analyze_bundle includes same_units get set extract_copy_statements has_extension
    is_fully_resolved
bundle_run = refl

bundle_first : get (units_of "src/main.cbl") results ≡ some (first_of results)
unfolding analyze_bundle includes same_units get set extract_copy_statements has_extension
    is_fully_resolved
bundle_first = refl

bundle_unique :
    candidates plain (normalize_copy_name plain (units_of "src/main.cbl")) bundle
    ≡ units_of "src/main.cbl" ∷ []
unfolding candidates same_units normalize_copy_name
bundle_unique = refl

lines-strip_comments_example : lines (strip_comments source) ≡ map strip_line (lines source)
lines-strip_comments_example = lines-strip_comments source

extract_copy_statements-lines_example :
    all (is_between 1 (length (lines source))) (extract_copy_statements source) ≡ true
extract_copy_statements-lines_example = extract_copy_statements-lines source

get-build_copybook_index_example :
    get (units_of "a") (build_copybook_index plain bundle)
    ≡ appended none (candidates plain (units_of "a") bundle)
get-build_copybook_index_example = get-build_copybook_index plain (units_of "a") bundle

analyze_bundle-total_example :
    (results : Results) × (analyze_bundle plain bundle ≡ some results)
    × ((n : Units)
        → exists_value (get n results) ≡ (includes n (names_of bundle) && is_program plain n))
analyze_bundle-total_example = analyze_bundle-total plain bundle

analyze_bundle-IsReady_example :
    ((first_of results).status ≡ ProgramStatus.ready_for_conversion)
    ↔ IsReady plain
        (contents_of bundle)
        (build_copybook_index plain bundle)
        (units_of "src/main.cbl")
analyze_bundle-IsReady_example =
    analyze_bundle-IsReady plain bundle results (units_of "src/main.cbl") (first_of results)
      bundle_run bundle_first bundle_unique

find_copybook_blockers-analyze_bundle_example :
    (find_copybook_blockers plain (first_of results).dependencies ≡ [])
    ↔ ((first_of results).status ≡ ProgramStatus.ready_for_conversion)
find_copybook_blockers-analyze_bundle_example =
    find_copybook_blockers-analyze_bundle plain bundle results (units_of "src/main.cbl")
      (first_of results) bundle_run bundle_first
