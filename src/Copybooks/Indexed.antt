-- ===== src/Copybooks/Indexed.antt =====
-- The index of a bundle is what the resolver needs.
use alsm_web_be.Base.{
  ℕ, true, ◌≡◌, ◌≢◌, refl, Option, none, some, List, [], ◌∷◌, length, all, arith,
}
use alsm_web_be.Copybooks.Units.{Units, same_units_iff, includes, get, is_name_unit}
use alsm_web_be.Copybooks.Statements.{Statement, extract_copy_statements, lines}
use alsm_web_be.Copybooks.Names.{normalize_copy_name}
use alsm_web_be.Copybooks.Resolver.{
  BundleFile, Index, Contents, Resolution, chosen, or_get, resolve_copy_name, build_copybook_index,
}
use alsm_web_be.Copybooks.Reference.{statements_in}
use alsm_web_be.Copybooks.Literal.{literal_key-name}
use alsm_web_be.Copybooks.Extracted.{is_between, is_copy_name}
use alsm_web_be.Copybooks.Lines.{extract_copy_statements-lines}
use alsm_web_be.Copybooks.Candidates.{
  names_of, candidates, appended, candidates-one, candidates-includes, get-build_copybook_index,
}
use alsm_web_be.Copybooks.Agreement.{IsPlain, AllPlain, IsIndexed, OwnsKey}

chosen-resolved :
    (o : Option (List Units)) (g : Units)
    → chosen (or_get o o) ≡ Resolution.resolved g
    → o ≡ some (g ∷ [])
unfolding chosen
chosen-resolved none g e = cc
chosen-resolved (some []) g e = cc
chosen-resolved (some (f ∷ [])) g e = cc
chosen-resolved (some (f ∷ h ∷ fs)) g e = cc

chosen-missing :
    (o : Option (List Units)) (f : Units) (fs : List Units)
    → chosen (or_get o o) ≡ Resolution.missing
    → o ≢ some (f ∷ fs)
unfolding chosen
chosen-missing none f fs e h = cc
chosen-missing (some []) f fs e h = cc
chosen-missing (some (g ∷ [])) f fs e h = cc
chosen-missing (some (g ∷ h ∷ gs)) f fs e k = cc

appended-one : (l : List Units) (g : Units) → appended none l ≡ some (g ∷ []) → l ≡ g ∷ []
unfolding appended
appended-one [] g e = cc
appended-one (c ∷ l) g e = cc

name_units_only : (n : Units) → is_copy_name n ≡ true → all is_name_unit n ≡ true
name_units_only [] h = refl
name_units_only (c ∷ r) h = ground arith

module _ (to_lower : Units → Units) where
  -- A name as the pattern reads it is looked up under one key.
  pub resolve_copy_name-plain :
      (n : Units) (index : Index)
      → is_copy_name n ≡ true
      → resolve_copy_name to_lower n index
        ≡ chosen (
            or_get
              (get (normalize_copy_name to_lower n) index)
              (get (normalize_copy_name to_lower n) index))
  unfolding resolve_copy_name
  resolve_copy_name-plain n index h = rw (literal_key-name to_lower n (name_units_only n h))

  statement-IsPlain :
      (contents : Contents) (index : Index) (s : Statement)
      → is_copy_name s.copy_name ≡ true
      → IsPlain to_lower contents index s
  statement-IsPlain contents index s h = (
    (λ g e.
        chosen-resolved (get (normalize_copy_name to_lower s.copy_name) index) g
          (rw (resolve_copy_name-plain s.copy_name index h) at e)),
    (λ e f fs.
        chosen-missing (get (normalize_copy_name to_lower s.copy_name) index) f fs
          (rw (resolve_copy_name-plain s.copy_name index h) at e)),
  )

  statements-AllPlain :
      (contents : Contents) (index : Index) (last : ℕ) (ss : List Statement)
      → all (is_between 1 last) ss ≡ true
      → AllPlain to_lower contents index ss
  statements-AllPlain contents index last [] h = _
  statements-AllPlain contents index last (s ∷ ss) h = (
    statement-IsPlain contents index s (ground arith),
    statements-AllPlain contents index last ss (ground arith),
  )

  contents-AllPlain :
      (contents : Contents) (index : Index) (o : Option Units)
      → AllPlain to_lower contents index (statements_in o)
  unfolding statements_in
  contents-AllPlain contents index none = _
  contents-AllPlain contents index (some content) =
      statements-AllPlain contents index (length (lines content)) (extract_copy_statements content)
        (extract_copy_statements-lines content)

  pub build_copybook_index-one :
      (k g : Units) (files : List BundleFile)
      → get k (build_copybook_index to_lower files) ≡ some (g ∷ [])
      → candidates to_lower k files ≡ g ∷ []
  build_copybook_index-one k g files e =
      appended-one (candidates to_lower k files) g
        (rw (get-build_copybook_index to_lower k files) at e)

  pub bundle-IsIndexed :
      (contents : Contents) (files : List BundleFile)
      → IsIndexed to_lower contents (build_copybook_index to_lower files)
  bundle-IsIndexed contents files = record {
    key = λ k g e. candidates-one to_lower k g files (build_copybook_index-one k g files e);
    plain = contents-AllPlain contents (build_copybook_index to_lower files);
  }

  pub bundle-OwnsKey :
      (contents : Contents) (files : List BundleFile) (f : Units)
      → includes f (names_of files) ≡ true
      → OwnsKey to_lower contents (build_copybook_index to_lower files) f
  unfolding includes
  bundle-OwnsKey contents files f h g e =
      let one = build_copybook_index-one (normalize_copy_name to_lower f) g files e in
      let mine : includes f (g ∷ []) ≡ true = rw one at (candidates-includes to_lower f files h) in
      (same_units_iff g f).0 (ground arith)
