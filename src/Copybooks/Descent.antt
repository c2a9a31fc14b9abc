-- ===== src/Copybooks/Descent.antt =====
-- Below a name of the path: the path grows, and no file of it is ready.
use alsm_web_be.Base.{
  ℕ, zero, suc, true, false, ◌≡◌, refl, some, List, [], ◌∷◌, ◌++◌, arith, Bool-cases, inl, inr, ◌⊎◌,
}
use alsm_web_be.Copybooks.Units.{Units, includes, get}
use alsm_web_be.Copybooks.Statements.{Statement}
use alsm_web_be.Copybooks.Names.{normalize_copy_name}
use alsm_web_be.Copybooks.Resolver.{Index, Contents, Resolution, resolve_copy_name}
use alsm_web_be.Copybooks.Reference.{is_fine, is_ready_within, is_ready_within-le}
use alsm_web_be.Copybooks.Paths.{includes-append_cases}
use alsm_web_be.Copybooks.Agreement.{IsPlain, IsPath, IsOf}

module _ (to_lower : Units → Units) (contents : Contents) (index : Index) where
  pub resolution_cases :
      (r : Resolution)
      → (r ≡ Resolution.missing)
        ⊎ (((g : Units) × (r ≡ Resolution.resolved g))
            ⊎ ((gs : List Units) × (r ≡ Resolution.ambiguous gs)))
  resolution_cases Resolution.missing = inl refl
  resolution_cases (Resolution.resolved g) = inr (inl (g, refl))
  resolution_cases (Resolution.ambiguous gs) = inr (inr (gs, refl))

  -- A statement whose name is on the path is never fine: that would be an endless descent.
  pub no_cycle :
      (s : Statement) (f : Units) (path : List Units)
      → (IsPlain to_lower contents index) s
      → (IsOf to_lower contents index) s f
      → (IsPath to_lower contents index) path f
      → includes (normalize_copy_name to_lower s.copy_name) path ≡ true
      → (h : ℕ)
      → is_fine to_lower contents index (is_ready_within to_lower contents index h) s ≡ false
  unfolding is_fine is_ready_within
  no_cycle s f path plain of_f p on h =
      elim (resolution_cases (resolve_copy_name to_lower s.copy_name index)) [
        | inl missing ↦
            let (g, gs, there) = p.known (normalize_copy_name to_lower s.copy_name) on in
            absurd (plain.1 missing g gs there)
        | inr (inr (gs, many)) ↦ rw (many, is_fine)
        | inr (inl (g, one)) ↦ descend g one h
      ]
    where
      descend :
          (g : Units)
          → resolve_copy_name to_lower s.copy_name index ≡ Resolution.resolved g
          → (h : ℕ)
          → is_fine to_lower contents index (is_ready_within to_lower contents index h) s ≡ false
      descend g one zero = rw (one, is_fine, is_ready_within)
      descend g one (suc h) =
          elim (Bool-cases (is_ready_within to_lower contents index (suc h) g)) [
            | inr out ↦ rw (one, is_fine) out
            | inl ready ↦
                let below = of_f h (
                  p.above (normalize_copy_name to_lower s.copy_name) g on (plain.0 g one) (suc h)
                    ready) in
                cc (below, descend g one h)
          ]

  -- The path below a statement that is followed into the file `g`.
  pub next-IsPath :
      (s : Statement) (f g : Units) (path : List Units)
      → (IsPlain to_lower contents index) s
      → (IsOf to_lower contents index) s f
      → (IsPath to_lower contents index) path f
      → resolve_copy_name to_lower s.copy_name index ≡ Resolution.resolved g
      → (IsPath to_lower contents index) (path ++ normalize_copy_name to_lower s.copy_name ∷ []) g
  unfolding is_fine is_ready_within
  next-IsPath s f g path plain of_f p one = record {
    known = λ n on.
        elim (includes-append_cases n (normalize_copy_name to_lower s.copy_name) path on) [
          | inl old ↦ p.known n old
          | inr new ↦ (g, [], rw (← new) (plain.0 g one))
        ];
    above = λ n a on there h ready.
        elim (includes-append_cases n (normalize_copy_name to_lower s.copy_name) path on) [
          | inl old ↦ descend h (p.above n a old there h ready)
          | inr new ↦
              let mine : get n index ≡ some (g ∷ []) = rw (← new) (plain.0 g one) in
              let same : a ≡ g = cc in rw (← same) ready
        ];
  }
    where
      descend :
          (h : ℕ)
          → is_ready_within to_lower contents index h f ≡ true
          → is_ready_within to_lower contents index h g ≡ true
      descend zero ready = cc
      descend (suc h) ready =
          is_ready_within-le to_lower contents index (suc h) h g (omega arith)
            (rw (one, is_fine) at (of_f h ready))
