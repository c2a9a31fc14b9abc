-- ===== src/Copybooks/Correct.antt =====
-- The recursion over files ends and agrees with the reference definition.
use alsm_web_be.Base.{
  ℕ, zero, suc, ◌<◌, true, ◌≡◌, refl, none, some, List, all, arith, Bool-cases, Option-cases, inl,
  inr,
}
use alsm_web_be.Copybooks.Units.{Units, same_units, same_units_iff, get, set, get-set}
use alsm_web_be.Copybooks.Statements.{extract_copy_statements}
use alsm_web_be.Copybooks.Names.{normalize_copy_name}
use alsm_web_be.Copybooks.Entries.{Entries, nil, is_fully_resolved}
use alsm_web_be.Copybooks.Resolver.{Index, Contents, Cache, resolve_dependencies_of}
use alsm_web_be.Copybooks.Reference.{statements_in, is_fine, is_ready_within}
use alsm_web_be.Copybooks.Paths.{unvisited}
use alsm_web_be.Copybooks.Agreement.{
  IsIndexed, Agrees, IsCached, IsPath, IsCorrect, OwnsKey, IsResolver,
}
use alsm_web_be.Copybooks.Answers.{statements_lem}

module _ (to_lower : Units → Units) (contents : Contents) (index : Index) where
  stored-IsCached :
      (f : Units) (es : Entries) (cache : Cache)
      → (OwnsKey to_lower contents index) f
      → (Agrees to_lower contents index) es f
      → (IsCached to_lower contents index) cache
      → (IsCached to_lower contents index) (set (normalize_copy_name to_lower f) es cache)
  stored-IsCached f es cache own agrees cached k ds g there unique =
      elim (Bool-cases (same_units (normalize_copy_name to_lower f) k)) [
        | inl same ↦
            let e : normalize_copy_name to_lower f ≡ k =
              (same_units_iff (normalize_copy_name to_lower f) k).0 same in
            let known : some es ≡ some ds =
              rw (get-set (normalize_copy_name to_lower f) k es cache, same) at there in
            let eqd : es ≡ ds = cc in
            let eqf : g ≡ f = own g (rw e unique) in rw (← eqd, eqf) agrees
        | inr other ↦
            cached k ds g (rw (get-set (normalize_copy_name to_lower f) k es cache, other) at there)
              unique
      ]

  ready_statements :
      (h : ℕ) (f content : Units)
      → get f contents ≡ some content
      → is_ready_within to_lower contents index h f ≡ true
      → (k : ℕ) × (all
            (is_fine to_lower contents index (is_ready_within to_lower contents index k))
            (extract_copy_statements content)
          ≡ true)
  unfolding is_ready_within statements_in
  ready_statements zero f content there r = cc
  ready_statements (suc h) f content there r = (h, rw (there, statements_in) at r)

  module _ (indexed : (IsIndexed to_lower contents index)) where
    -- A file whose tree is not in the cache.
    computed_lem :
        (fuel : ℕ) (f content : Units) (path : List Units) (cache : Cache)
        → (IsResolver to_lower contents index) fuel
            (resolve_dependencies_of to_lower fuel contents index)
        → unvisited index path < suc fuel
        → (IsPath to_lower contents index) path f
        → (OwnsKey to_lower contents index) f
        → (IsCached to_lower contents index) cache
        → get (normalize_copy_name to_lower f) cache ≡ none
        → get f contents ≡ some content
        → (IsCorrect to_lower contents index)
            (resolve_dependencies_of to_lower (suc fuel) contents index f path cache)
            f
    unfolding resolve_dependencies_of is_ready_within statements_in
    computed_lem fuel f content path cache good room p own cached new there =
        let all_of =
          statements_lem to_lower contents index indexed fuel
            (resolve_dependencies_of to_lower fuel contents index) good f path p room
            (extract_copy_statements content) cache (indexed.plain (some content))
            (λ h r. rw (there, statements_in) at r) cached in
        let agrees : (Agrees to_lower contents index) all_of.entries f = record {
          sound = λ e. let (h, a) = all_of.sound e in (suc h, rw (there, statements_in) a);
          complete =
              λ (h, r). let (k, a) = ready_statements h f content there r in all_of.complete k a;
        } in
        record {
          entries = all_of.entries;
          cache = set (normalize_copy_name to_lower f) all_of.entries all_of.cache;
          result = rw (new, there, all_of.result, resolve_dependencies_of);
          cached = stored-IsCached f all_of.entries all_of.cache own agrees all_of.cached;
          agrees = λ _. agrees;
        }

    pub resolve_lem :
        (fuel : ℕ)
        → IsResolver to_lower contents index fuel
            (resolve_dependencies_of to_lower fuel contents index)
    unfolding resolve_dependencies_of is_ready_within statements_in is_fully_resolved
    resolve_lem zero f path cache room p own cached = absurd (omega (arith, room))
    resolve_lem (suc fuel) f path cache room p own cached =
        elim (Option-cases (get (normalize_copy_name to_lower f) cache)) [
          | inr (es, old) ↦ record {
            entries = es;
            cache = cache;
            result = rw (old, resolve_dependencies_of);
            cached = cached;
            agrees = λ unique. cached _ es f old unique;
          }
          | inl new ↦ elim (Option-cases (get f contents)) [
            | inl lost ↦ record {
              entries = nil;
              cache = cache;
              result = rw (new, lost, resolve_dependencies_of);
              cached = cached;
              agrees =
                  λ _. record { sound = λ _. (1, rw (lost, statements_in)); complete = λ _. refl };
            }
            | inr (content, there) ↦
                computed_lem fuel f content path cache (resolve_lem fuel) room p own cached new
                  there
          ]
        ]
