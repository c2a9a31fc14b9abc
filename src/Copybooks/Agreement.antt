-- ===== src/Copybooks/Agreement.antt =====
-- What it means that a resolver of copybooks is right, with its cache and its path.
use alsm_web_be.Base.{ℕ, suc, ◌<◌, true, ◌≡◌, ◌≢◌, Option, some, List, [], ◌∷◌}
use alsm_web_be.Copybooks.Units.{Units, includes, get}
use alsm_web_be.Copybooks.Statements.{Statement}
use alsm_web_be.Copybooks.Names.{normalize_copy_name}
use alsm_web_be.Copybooks.Entries.{Entries, is_fully_resolved}
use alsm_web_be.Copybooks.Resolver.{Index, Contents, Cache, Resolution, resolve_copy_name}
use alsm_web_be.Copybooks.Reference.{statements_in, is_fine, is_ready_within, IsReady}
use alsm_web_be.Copybooks.Paths.{unvisited}

module _ (to_lower : Units → Units) (contents : Contents) (index : Index) where
  -- A name of a statement has at most one key in the index.
  abbrev pub IsPlain : Statement → Type 0
  IsPlain s =
      ((g : Units)
        → resolve_copy_name to_lower s.copy_name index ≡ Resolution.resolved g
        → get (normalize_copy_name to_lower s.copy_name) index ≡ some (g ∷ []))
      × (resolve_copy_name to_lower s.copy_name index ≡ Resolution.missing
          → (f : Units) (fs : List Units)
          → get (normalize_copy_name to_lower s.copy_name) index ≢ some (f ∷ fs))

  abbrev pub AllPlain : List Statement → Type 0
  AllPlain [] = Unit {0}
  AllPlain (s ∷ ss) = IsPlain s × AllPlain ss

  -- What the theorems need of the index and of the contents.
  pub record IsIndexed : Type 0 where
    pub key : (k g : Units) → get k index ≡ some (g ∷ []) → normalize_copy_name to_lower g ≡ k
    pub plain : (o : Option Units) → AllPlain (statements_in o)

  -- A tree says whether a file is ready.
  pub record Agrees (es : Entries) (f : Units) : Type 0 where
    pub sound : is_fully_resolved es ≡ true → IsReady to_lower contents index f
    pub complete : IsReady to_lower contents index f → is_fully_resolved es ≡ true

  -- Cached trees agree with the file of their key, where that is one file.
  abbrev pub IsCached : Cache → Type 0
  IsCached cache =
      (k : Units) (es : Entries) (g : Units)
      → get k cache ≡ some es
      → get k index ≡ some (g ∷ [])
      → Agrees es g

  -- The names on the path are keys, and whoever is ready on the path has `f` ready.
  pub record IsPath (path : List Units) (f : Units) : Type 0 where
    pub known :
        (n : Units)
        → includes n path ≡ true
        → (g : Units) × (gs : List Units) × (get n index ≡ some (g ∷ gs))
    pub above :
        (n g : Units)
        → includes n path ≡ true
        → get n index ≡ some (g ∷ [])
        → (h : ℕ) → is_ready_within to_lower contents index h g ≡ true
        → is_ready_within to_lower contents index h f ≡ true

  -- `s` is a statement of `f`.
  abbrev pub IsOf : Statement → Units → Type 0
  IsOf s f =
      (h : ℕ)
      → is_ready_within to_lower contents index (suc h) f ≡ true
      → is_fine to_lower contents index (is_ready_within to_lower contents index h) s ≡ true

  -- What a call for one file gives: it ends, keeps the cache right, and its tree agrees.
  pub record IsCorrect (o : Option (Entries × Cache)) (f : Units) : Type 0 where
    pub entries : Entries
    pub cache : Cache
    pub result : o ≡ some (entries, cache)
    pub cached : IsCached cache
    pub agrees : get (normalize_copy_name to_lower f) index ≡ some (f ∷ []) → Agrees entries f

  -- No other single file has the key of `f`.
  abbrev pub OwnsKey : Units → Type 0
  OwnsKey f = (g : Units) → get (normalize_copy_name to_lower f) index ≡ some (g ∷ []) → g ≡ f

  abbrev pub IsResolver : ℕ → (Units → List Units → Cache → Option (Entries × Cache)) → Type 0
  IsResolver fuel recur =
      (f : Units) (path : List Units) (cache : Cache)
      → unvisited index path < fuel
      → IsPath path f
      → OwnsKey f
      → IsCached cache
      → IsCorrect (recur f path cache) f
