-- ===== src/Copybooks/Candidates.antt =====
-- The index of a bundle, against a search of its files.
use alsm_web_be.Base.{
  ◌+◌, ◌≤◌, Bool, true, false, ◌≡◌, refl, sym, ap, Option, none, some, List, [], ◌∷◌, ◌++◌, length,
  all, arith, Bool-cases, Option-cases, inl, inr, if◌then◌else◌,
}
use alsm_web_be.Copybooks.Units.{Units, same_units, same_units_iff, includes, get, set, get-set}
use alsm_web_be.Copybooks.Names.{normalize_copy_name}
use alsm_web_be.Copybooks.Resolver.{
  BundleFile, Index, add_to_index, index_from, build_copybook_index,
}

unfoldable pub appended : Option (List Units) → List Units → Option (List Units)
appended none [] = none
appended none (c ∷ cs) = some (c ∷ cs)
appended (some l) cs = some (l ++ cs)

abbrev pub names_of : List BundleFile → List Units
names_of [] = []
names_of (f ∷ fs) = f.name ∷ names_of fs

includes_either :
    (b : Bool) (n m : Units) (l : List Units)
    → includes n l ≡ true
    → includes n (if b then m ∷ l else l) ≡ true
unfolding includes
includes_either true n m l h = ground arith
includes_either false n m l h = h

append_nil : (l : List Units) → l ++ [] ≡ l
append_nil [] = refl
append_nil (x ∷ l) = rw (append_nil l)

append_assoc : (l : List Units) (c : Units) (cs : List Units) → (l ++ c ∷ []) ++ cs ≡ l ++ c ∷ cs
append_assoc [] c cs = refl
append_assoc (x ∷ l) c cs = rw (append_assoc l c cs)

module _ (to_lower : Units → Units) where
  -- The files of a name, by a search of the bundle.
  unfoldable pub candidates : Units → List BundleFile → List Units
  candidates k [] = []
  candidates k (f ∷ fs) =
      if same_units (normalize_copy_name to_lower f.name) k
      then f.name ∷ candidates k fs
      else candidates k fs

  add_new :
      (name : Units) (index : Index)
      → get (normalize_copy_name to_lower name) index ≡ none
      → add_to_index to_lower name index ≡ set (normalize_copy_name to_lower name) (name ∷ []) index
  unfolding add_to_index
  add_new name index new = rw (new, add_to_index)

  add_old :
      (name : Units) (index : Index) (names : List Units)
      → get (normalize_copy_name to_lower name) index ≡ some names
      → add_to_index to_lower name index
        ≡ set (normalize_copy_name to_lower name) (names ++ name ∷ []) index
  unfolding add_to_index
  add_old name index names old = rw (old, add_to_index)

  -- A file of another name.
  get-add_other :
      (k name : Units) (index : Index)
      → same_units (normalize_copy_name to_lower name) k ≡ false
      → get k (add_to_index to_lower name index) ≡ get k index
  get-add_other k name index other =
      elim (Option-cases (get (normalize_copy_name to_lower name) index)) [
        | inl new ↦ rw (
          add_new name index new,
          get-set (normalize_copy_name to_lower name) k (name ∷ []) index,
          other,
        )
        | inr (names, old) ↦ rw (
          add_old name index names old,
          get-set (normalize_copy_name to_lower name) k (names ++ name ∷ []) index,
          other,
        )
      ]

  get-add_same :
      (k name : Units) (index : Index)
      → same_units (normalize_copy_name to_lower name) k ≡ true
      → get k (add_to_index to_lower name index) ≡ appended (get k index) (name ∷ [])
  unfolding appended
  get-add_same k name index same =
      let e : normalize_copy_name to_lower name ≡ k =
        (same_units_iff (normalize_copy_name to_lower name) k).0 same in
      elim (Option-cases (get k index)) [
        | inl new ↦ rw (
          add_new name index (rw e new),
          e,
          new,
          get-set k k (name ∷ []) index,
          (same_units_iff k k).1 refl,
        )
        | inr (names, old) ↦ rw (
          add_old name index names (rw e old),
          e,
          old,
          get-set k k (names ++ name ∷ []) index,
          (same_units_iff k k).1 refl,
        )
      ]

  appended_nil : (o : Option (List Units)) → appended o [] ≡ o
  unfolding appended
  appended_nil none = refl
  appended_nil (some l) = ap some (append_nil l)

  appended-appended :
      (o : Option (List Units)) (c : Units) (cs : List Units)
      → appended (appended o (c ∷ [])) cs ≡ appended o (c ∷ cs)
  unfolding appended
  appended-appended none c cs = refl
  appended-appended (some l) c cs = ap some (append_assoc l c cs)

  get-index_from :
      (k : Units) (index : Index) (files : List BundleFile)
      → get k (index_from to_lower index files) ≡ appended (get k index) (candidates k files)
  unfolding index_from candidates
  get-index_from k index [] = sym (appended_nil (get k index))
  get-index_from k index (f ∷ fs) =
      elim (Bool-cases (same_units (normalize_copy_name to_lower f.name) k)) [
        | inl same ↦
            rw
              (
                get-index_from k (add_to_index to_lower f.name index) fs,
                get-add_same k f.name index same,
                same,
              )
              (appended-appended (get k index) f.name (candidates k fs))
        | inr other ↦ rw (
          get-index_from k (add_to_index to_lower f.name index) fs,
          get-add_other k f.name index other,
          other,
        )
      ]

  -- The index gives under a key exactly the names of the bundle whose normalized name is that
  -- key, in the order of the bundle and with repetitions, and nothing if there is none.
  pub get-build_copybook_index :
      (k : Units) (files : List BundleFile)
      → get k (build_copybook_index to_lower files) ≡ appended none (candidates k files)
  unfolding build_copybook_index get
  get-build_copybook_index k files = get-index_from k [] files

  candidates-all :
      (k : Units) (files : List BundleFile)
      → all (λ g. same_units (normalize_copy_name to_lower g) k) (candidates k files) ≡ true
  unfolding candidates
  candidates-all k [] = refl
  candidates-all k (f ∷ fs) =
      elim (Bool-cases (same_units (normalize_copy_name to_lower f.name) k)) [
        | inl same ↦ rw (same, all, same) (candidates-all k fs)
        | inr other ↦ rw other (candidates-all k fs)
      ]

  pub candidates-one :
      (k g : Units) (files : List BundleFile)
      → candidates k files ≡ g ∷ []
      → normalize_copy_name to_lower g ≡ k
  candidates-one k g files e =
      let h : all (λ g. same_units (normalize_copy_name to_lower g) k) (g ∷ []) ≡ true =
        rw e at (candidates-all k files) in
      (same_units_iff (normalize_copy_name to_lower g) k).0 (ground arith)

  -- A file is a candidate for its own name.
  pub candidates-includes :
      (n : Units) (files : List BundleFile)
      → includes n (names_of files) ≡ true
      → includes n (candidates (normalize_copy_name to_lower n) files) ≡ true
  unfolding candidates includes
  candidates-includes n [] h = h
  candidates-includes n (f ∷ fs) h = elim (Bool-cases (same_units f.name n)) [
    | inl same ↦
        let e : f.name ≡ n = (same_units_iff f.name n).0 same in
        rw (
          e,
          (same_units_iff (normalize_copy_name to_lower n) (normalize_copy_name to_lower n)).1 refl,
          includes,
          (same_units_iff n n).1 refl,
        )
    | inr other ↦
        includes_either
          (same_units (normalize_copy_name to_lower f.name) (normalize_copy_name to_lower n)) n
          f.name (candidates (normalize_copy_name to_lower n) fs)
          (candidates-includes n fs (ground arith))
  ]

  length-set :
      (k : Units) (v : List Units) (index : Index) → length (set k v index) ≤ 1 + length index
  unfolding set
  length-set k v [] = omega arith
  length-set k v ((j, w) ∷ index) = ground (arith, length-set k v index)

  length-add_to_index :
      (name : Units) (index : Index) → length (add_to_index to_lower name index) ≤ 1 + length index
  length-add_to_index name index =
      elim (Option-cases (get (normalize_copy_name to_lower name) index)) [
        | inl new ↦
            rw (add_new name index new)
              (length-set (normalize_copy_name to_lower name) (name ∷ []) index)
        | inr (names, old) ↦
            rw (add_old name index names old)
              (length-set (normalize_copy_name to_lower name) (names ++ name ∷ []) index)
      ]

  length-index_from :
      (index : Index) (files : List BundleFile)
      → length (index_from to_lower index files) ≤ length index + length files
  unfolding index_from
  length-index_from index [] = omega arith
  length-index_from index (f ∷ fs) = omega (
    arith,
    length-index_from (add_to_index to_lower f.name index) fs,
    length-add_to_index f.name index,
  )

  pub length-build_copybook_index :
      (files : List BundleFile) → length (build_copybook_index to_lower files) ≤ length files
  unfolding build_copybook_index
  length-build_copybook_index files = omega (arith, length-index_from [] files)
