-- ===== src/Copybooks/Reference.antt =====
-- What it means that a file is ready, with no cache and no path: a definition to compare the
-- resolver with.
use alsm_web_be.Base.{
  ℕ, zero, suc, ◌≤◌, Bool, true, false, ◌≡◌, refl, Option, none, some, List, [], ◌∷◌, all, arith,
  Bool-cases, inl, inr, leb,
}
use alsm_web_be.Copybooks.Units.{Units, get}
use alsm_web_be.Copybooks.Statements.{Statement, extract_copy_statements}
use alsm_web_be.Copybooks.Names.{is_system_copybook}
use alsm_web_be.Copybooks.Resolver.{Index, Contents, Resolution, resolve_copy_name}

unfoldable pub statements_in : Option Units → List Statement
statements_in none = []
statements_in (some content) = extract_copy_statements content

module _ (to_lower : Units → Units) (contents : Contents) (index : Index) where
  -- A statement is fine if its copybook is one file and that is ready, or if it is a system
  -- copybook that was not uploaded.
  unfoldable pub is_fine : (Units → Bool) → Statement → Bool
  is_fine ready s = elim (resolve_copy_name to_lower s.copy_name index) [
    | Resolution.missing ↦ is_system_copybook to_lower s.copy_name
    | Resolution.resolved g ↦ ready g
    | Resolution.ambiguous _ ↦ false
  ]

  -- All statements of a file are fine, and so on for at most `height` levels.
  unfoldable pub is_ready_within : ℕ → Units → Bool
  is_ready_within zero file = false
  is_ready_within (suc height) file =
      all (is_fine (is_ready_within height)) (statements_in (get file contents))

  abbrev pub IsReady : Units → Type 0
  IsReady file = (height : ℕ) × (is_ready_within height file ≡ true)

  is_fine_mono :
      (p q : Units → Bool) (s : Statement)
      → ((g : Units) → p g ≡ true → q g ≡ true)
      → is_fine p s ≡ true
      → is_fine q s ≡ true
  unfolding is_fine
  is_fine_mono p q s h e = by_cases (resolve_copy_name to_lower s.copy_name index) e
    where
      by_cases :
          (r : Resolution)
          → elim r as (λ _. Bool) [
            | Resolution.missing ↦ is_system_copybook to_lower s.copy_name
            | Resolution.resolved g ↦ p g
            | Resolution.ambiguous _ ↦ false
          ]
            ≡ true
          → elim r as (λ _. Bool) [
            | Resolution.missing ↦ is_system_copybook to_lower s.copy_name
            | Resolution.resolved g ↦ q g
            | Resolution.ambiguous _ ↦ false
          ]
            ≡ true
      by_cases Resolution.missing e = e
      by_cases (Resolution.resolved g) e = h g e
      by_cases (Resolution.ambiguous _) e = e

  all_fine_mono :
      (p q : Units → Bool) (ss : List Statement)
      → ((g : Units) → p g ≡ true → q g ≡ true)
      → all (is_fine p) ss ≡ true
      → all (is_fine q) ss ≡ true
  all_fine_mono p q [] h e = refl
  all_fine_mono p q (s ∷ ss) h e = ground (arith, is_fine_mono p q s h, all_fine_mono p q ss h)

  is_ready_within-suc :
      (h : ℕ) (f : Units) → is_ready_within h f ≡ true → is_ready_within (suc h) f ≡ true
  unfolding is_ready_within
  is_ready_within-suc zero f e = cc
  is_ready_within-suc (suc h) f e =
      all_fine_mono (is_ready_within h) (is_ready_within (suc h)) _ (is_ready_within-suc h) e

  pub is_ready_within-le :
      (k h : ℕ) (f : Units) → h ≤ k → is_ready_within h f ≡ true → is_ready_within k f ≡ true
  is_ready_within-le zero h f le e = let z : h ≡ 0 = omega arith in rw z at e
  is_ready_within-le (suc k) h f le e = elim (Bool-cases (leb h k)) [
    | inl below ↦ is_ready_within-suc k f (is_ready_within-le k h f (ground arith) e)
    | inr above ↦ let z : h ≡ suc k = ground arith in rw z at e
  ]

  -- More levels do not hurt.
  pub all_fine-le :
      (k h : ℕ) (ss : List Statement)
      → h ≤ k
      → all (is_fine (is_ready_within h)) ss ≡ true
      → all (is_fine (is_ready_within k)) ss ≡ true
  all_fine-le k h ss le e =
      all_fine_mono (is_ready_within h) (is_ready_within k) ss
        (λ g r. is_ready_within-le k h g le r) e

  pub is_fine-le :
      (k h : ℕ) (s : Statement)
      → h ≤ k
      → is_fine (is_ready_within h) s ≡ true
      → is_fine (is_ready_within k) s ≡ true
  is_fine-le k h s le e =
      is_fine_mono (is_ready_within h) (is_ready_within k) s (λ g r. is_ready_within-le k h g le r)
        e
