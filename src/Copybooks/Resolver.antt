-- ===== src/Copybooks/Resolver.antt =====
-- buildCopybookIndex, resolveCopyName, resolveDependenciesOf, resolveProgram and analyzeBundle.
-- The recursion into the copybooks is on fuel, and `none` means that it ran out. The code's Map of
-- cached subtrees is passed along. `extractCopyStatements` cannot fail on a string, so the branch
-- for its errors is left out.
use alsm_web_be.Base.{
  ℕ, zero, suc, ◌+◌, Bool, true, false, Option, none, some, List, [], ◌∷◌, ◌++◌, length, any, ◌==◌,
  if◌then◌else◌,
}
use alsm_web_be.Copybooks.Units.{Units, units_of, includes, get, set}
use alsm_web_be.Copybooks.Statements.{Statement, extract_copy_statements}
use alsm_web_be.Copybooks.Names.{normalize_copy_name, is_system_copybook, has_extension, lower_case}
use alsm_web_be.Copybooks.Entries.{
  DependencyStatus, Entry, entry, Entries, nil, cons, is_fully_resolved,
}

pub record BundleFile : Type 0 where
  pub name : Units
  pub content : Units

abbrev pub Index : Type 0
Index = List (Units × List Units)

abbrev pub Contents : Type 0
Contents = List (Units × Units)

abbrev pub Cache : Type 0
Cache = List (Units × Entries)

pub data Resolution : Type 0 where
  missing : Resolution
  resolved : Units → Resolution
  ambiguous : List Units → Resolution

unfoldable pub chosen : List Units → Resolution
chosen [] = Resolution.missing
chosen (f ∷ []) = Resolution.resolved f
chosen (f ∷ g ∷ fs) = Resolution.ambiguous (f ∷ g ∷ fs)

abbrev pub or_get : Option (List Units) → Option (List Units) → List Units
or_get (some l) o = l
or_get none (some l) = l
or_get none none = []

abbrev referenced : Units → Units → Units
referenced copy_name by = units_of "COPYBOOK '" ++ copy_name ++ units_of "' referenced by '" ++ by

unfoldable pub chain : List Units → Units
chain [] = []
chain (n ∷ []) = n
chain (n ∷ m ∷ ns) = n ++ units_of " -> " ++ chain (m ∷ ns)

-- The entry of a statement that is not resolved: with no file, or on a cycle.
unfoldable pub unresolved : Statement → Units → DependencyStatus → List Units → Units → Entry
unresolved s file status candidates message =
    entry
      (record {
        copy_name = s.copy_name;
        status = status;
        line_number = s.line_number;
        resolved_file = none;
        candidates = candidates;
        message = some message;
      })
      nil

unfoldable pub several : Statement → Units → List Units → Entry
unfolding unresolved
several s file candidates =
    unresolved s file DependencyStatus.ambiguous candidates
      (referenced s.copy_name file ++ units_of "' matches multiple files.")

unfoldable pub found : Statement → Units → Entries → Entry
found s g below =
    entry
      (record {
        copy_name = s.copy_name;
        status = DependencyStatus.resolved;
        line_number = s.line_number;
        resolved_file = some g;
        candidates = [];
        message = none;
      })
      below

abbrev pub followed : Statement → Units → Option (Entries × Cache) → Option (Entry × Cache)
followed s g none = none
followed s g (some (below, cache)) = some (found s g below, cache)

abbrev pub stored : Units → Option (Entries × Cache) → Option (Entries × Cache)
stored key none = none
stored key (some (es, cache)) = some (es, set key es cache)

-- `NOT_ANALYZED` is written by other code, for programs uploaded before there was an analysis.
pub data ProgramStatus : Type 0 where
  ready_for_conversion blocked not_analyzed : ProgramStatus

pub record ProgramAnalysis : Type 0 where
  pub program : Units
  pub status : ProgramStatus
  pub dependencies : Entries

abbrev is_dot : ℕ → Bool
is_dot c = c == b'.'

-- `name.slice(name.lastIndexOf('.'))`; with no dot that is the last unit.
unfoldable pub from_last_dot : Units → Units
from_last_dot [] = []
from_last_dot (c ∷ []) = c ∷ []
from_last_dot (c ∷ d ∷ r) =
    if any is_dot (d ∷ r)
    then from_last_dot (d ∷ r)
    else if is_dot c
    then c ∷ d ∷ r
    else from_last_dot (d ∷ r)

abbrev pub analysis : Units → Entries → ProgramAnalysis
analysis program es = record {
  program = program;
  status =
      if is_fully_resolved es then ProgramStatus.ready_for_conversion else ProgramStatus.blocked;
  dependencies = es;
}

abbrev pub Results : Type 0
Results = List (Units × ProgramAnalysis)

-- `new Map(files.map((f) => [f.name, f.content]))`
unfoldable pub contents_from : Contents → List BundleFile → Contents
contents_from contents [] = contents
contents_from contents (f ∷ fs) = contents_from (set f.name f.content contents) fs

unfoldable pub contents_of : List BundleFile → Contents
unfolding contents_from
contents_of files = contents_from [] files

module _ (to_lower : Units → Units) where
  -- One file into the index.
  unfoldable pub add_to_index : Units → Index → Index
  add_to_index name index =
      let key = normalize_copy_name to_lower name in
      elim (get key index) [
        | none ↦ set key (name ∷ []) index
        | some names ↦ set key (names ++ name ∷ []) index
      ]

  unfoldable pub index_from : Index → List BundleFile → Index
  index_from index [] = index
  index_from index (f ∷ fs) = index_from (add_to_index f.name index) fs

  unfoldable pub build_copybook_index : List BundleFile → Index
  unfolding index_from add_to_index
  build_copybook_index files = index_from [] files

  unfoldable pub literal_key : Units → Units
  literal_key copy_name =
      normalize_copy_name to_lower
        (copy_name ++ (if has_extension copy_name then [] else units_of ".cpy"))

  unfoldable pub resolve_copy_name : Units → Index → Resolution
  unfolding literal_key chosen
  resolve_copy_name copy_name index = chosen (
      or_get (get (literal_key copy_name) index)
        (get (normalize_copy_name to_lower copy_name) index))

  unfoldable pub circular : Statement → Units → List Units → Entry
  unfolding unresolved chain
  circular s file path = unresolved s file DependencyStatus.circular_dependency [] (
      units_of "Circular copybook dependency detected: "
      ++ chain (path ++ normalize_copy_name to_lower s.copy_name ∷ []))

  unfoldable pub absent : Statement → Units → Entry
  unfolding unresolved is_system_copybook
  absent s file =
      if is_system_copybook to_lower s.copy_name
      then unresolved s file DependencyStatus.system_provided [] (
          referenced s.copy_name file
          ++ units_of
              "' is an IBM system copybook (CICS/MQ) supplied by the runtime; it is not expected in the upload.")
      else unresolved s file DependencyStatus.missing []
          (referenced s.copy_name file ++ units_of "' could not be found.")

  -- One COPY statement. `recur` resolves a file, with a path and the cache.
  unfoldable pub resolve_statement :
      (Units → List Units → Cache → Option (Entries × Cache))
      → Index
      → Units
      → List Units
      → Statement
      → Cache
      → Option (Entry × Cache)
  unfolding circular absent several found resolve_copy_name
  resolve_statement recur index file path s cache =
      elim (includes (normalize_copy_name to_lower s.copy_name) path) [
        | true ↦ some (circular s file path, cache)
        | false ↦ elim (resolve_copy_name s.copy_name index) [
          | Resolution.missing ↦ some (absent s file, cache)
          | Resolution.ambiguous candidates ↦ some (several s file candidates, cache)
          | Resolution.resolved g ↦
              followed s g (recur g (path ++ normalize_copy_name to_lower s.copy_name ∷ []) cache)
        ]
      ]

  -- `statements.map(…)`, from the first to the last.
  unfoldable pub resolve_statements :
      (Units → List Units → Cache → Option (Entries × Cache))
      → Index
      → Units
      → List Units
      → List Statement
      → Cache
      → Option (Entries × Cache)
  unfolding resolve_statement
  resolve_statements recur index file path [] cache = some (nil, cache)
  resolve_statements recur index file path (s ∷ ss) cache =
      elim (resolve_statement recur index file path s cache) [
        | none ↦ none
        | some (e, cache') ↦ elim (resolve_statements recur index file path ss cache') [
          | none ↦ none
          | some (es, cache'') ↦ some (cons e es, cache'')
        ]
      ]

  unfoldable pub resolve_dependencies_of :
      ℕ → Contents → Index → Units → List Units → Cache → Option (Entries × Cache)
  unfolding resolve_statements
  resolve_dependencies_of zero contents index file path cache = none
  resolve_dependencies_of (suc fuel) contents index file path cache =
      elim (get (normalize_copy_name to_lower file) cache) [
        | some es ↦ some (es, cache)
        | none ↦ elim (get file contents) [
          | none ↦ some (nil, cache)
          | some content ↦ stored (normalize_copy_name to_lower file) (
              resolve_statements (resolve_dependencies_of fuel contents index) index file path
                (extract_copy_statements content) cache)
        ]
      ]

  unfoldable pub is_program : Units → Bool
  unfolding from_last_dot lower_case
  is_program name =
      includes (lower_case to_lower (from_last_dot name)) (units_of ".cbl" ∷ units_of ".cob" ∷ [])

  unfoldable pub resolve_program : ℕ → Units → Contents → Index → Cache → Option (Entries × Cache)
  unfolding resolve_dependencies_of
  resolve_program fuel program contents index cache =
      resolve_dependencies_of fuel contents index program
        (normalize_copy_name to_lower program ∷ []) cache

  -- The loop of analyzeBundle over the files that are left.
  unfoldable pub analyze_files :
      ℕ → Contents → Index → List BundleFile → Cache → Results → Option Results
  unfolding resolve_program is_program
  analyze_files fuel contents index [] cache results = some results
  analyze_files fuel contents index (f ∷ fs) cache results = elim (is_program f.name) [
    | false ↦ analyze_files fuel contents index fs cache results
    | true ↦ elim (resolve_program fuel f.name contents index cache) [
      | none ↦ none
      | some (es, cache') ↦
          analyze_files fuel contents index fs cache' (set f.name (analysis f.name es) results)
    ]
  ]

  unfoldable pub analyze_bundle : List BundleFile → Option Results
  unfolding analyze_files contents_of build_copybook_index
  analyze_bundle files =
      analyze_files (length files + 1) (contents_of files) (build_copybook_index files) files [] []
