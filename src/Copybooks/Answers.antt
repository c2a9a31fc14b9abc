-- ===== src/Copybooks/Answers.antt =====
-- The statements of one file, when the calls below them are right.
use alsm_web_be.Base.{
  ℕ, suc, ◌+◌, ◌<◌, true, false, ◌≡◌, refl, Option, some, List, [], ◌∷◌, ◌++◌, all, arith,
  Bool-cases, inl, inr,
}
use alsm_web_be.Copybooks.Units.{Units, includes, get}
use alsm_web_be.Copybooks.Statements.{Statement}
use alsm_web_be.Copybooks.Names.{normalize_copy_name}
use alsm_web_be.Copybooks.Entries.{Entry, Entries, nil, cons, is_fully_resolved, is_entry_resolved}
use alsm_web_be.Copybooks.Resolver.{
  Index, Contents, Cache, Resolution, resolve_copy_name, circular, absent, several, found,
  unresolved, resolve_statement, resolve_statements,
}
use alsm_web_be.Copybooks.Reference.{is_fine, is_ready_within, all_fine-le, is_fine-le}
use alsm_web_be.Copybooks.Paths.{unvisited, unvisited-append}
use alsm_web_be.Copybooks.Agreement.{
  IsPlain, AllPlain, IsIndexed, IsCached, IsPath, IsOf, IsResolver,
}
use alsm_web_be.Copybooks.Descent.{resolution_cases, no_cycle, next-IsPath}

module _ (to_lower : Units → Units) (contents : Contents) (index : Index) where
  record IsStatement (o : Option (Entry × Cache)) (s : Statement) : Type 0 where
    resolved_entry : Entry
    cache : Cache
    result : o ≡ some (resolved_entry, cache)
    cached : (IsCached to_lower contents index) cache
    sound :
        is_entry_resolved resolved_entry ≡ true
        → (h : ℕ) × (is_fine to_lower contents index (is_ready_within to_lower contents index h) s
            ≡ true)
    complete :
        (h : ℕ)
        → is_fine to_lower contents index (is_ready_within to_lower contents index h) s ≡ true
        → is_entry_resolved resolved_entry ≡ true

  module _ (indexed : (IsIndexed to_lower contents index)) (fuel : ℕ)
      (recur : Units → List Units → Cache → Option (Entries × Cache))
      (good : (IsResolver to_lower contents index) fuel recur) (f : Units) (path : List Units)
      (p : (IsPath to_lower contents index) path f) (room : unvisited index path < suc fuel) where
    followed_lem :
        (s : Statement) (cache : Cache) (g : Units)
        → (IsPlain to_lower contents index) s
        → (IsOf to_lower contents index) s f
        → (IsCached to_lower contents index) cache
        → resolve_copy_name to_lower s.copy_name index ≡ Resolution.resolved g
        → includes (normalize_copy_name to_lower s.copy_name) path ≡ false
        → IsStatement (resolve_statement to_lower recur index f path s cache) s
    unfolding resolve_statement is_fine is_entry_resolved found
    followed_lem s cache g plain of_f cached one new =
        let n : Units = normalize_copy_name to_lower s.copy_name in
        let there : get n index ≡ some (g ∷ []) = plain.0 g one in
        let key : normalize_copy_name to_lower g ≡ n = indexed.key n g there in
        let below =
          good g (path ++ n ∷ []) cache
            (omega (arith, unvisited-append index path n (g ∷ []) there new, room))
            (next-IsPath to_lower contents index s f g path plain of_f p one)
            (λ a h. cc (rw key at h, there)) cached in
        let agrees = below.agrees (rw key there) in
        record {
          resolved_entry = found s g below.entries;
          cache = below.cache;
          result = rw (new, one, below.result, resolve_statement);
          cached = below.cached;
          sound = λ e. let (h, ready) = agrees.sound (ground arith) in (h, rw (one, is_fine) ready);
          complete = λ h e. let e' = agrees.complete (h, rw (one, is_fine) at e) in ground arith;
        }

    statement_lem :
        (s : Statement) (cache : Cache)
        → (IsPlain to_lower contents index) s
        → (IsOf to_lower contents index) s f
        → (IsCached to_lower contents index) cache
        → IsStatement (resolve_statement to_lower recur index f path s cache) s
    unfolding resolve_statement is_fine is_entry_resolved circular absent several unresolved
    statement_lem s cache plain of_f cached =
        elim (Bool-cases (includes (normalize_copy_name to_lower s.copy_name) path)) [
          | inl on ↦ record {
            resolved_entry = circular to_lower s f path;
            cache = cache;
            result = rw (on, resolve_statement) refl;
            cached = cached;
            sound = λ e. cc;
            complete = λ h e. cc (e, no_cycle to_lower contents index s f path plain of_f p on h);
          }
          | inr new ↦
              elim (resolution_cases to_lower contents index
                (resolve_copy_name to_lower s.copy_name index)) [
                  | inl none_there ↦ record {
                    resolved_entry = absent to_lower s f;
                    cache = cache;
                    result = rw (new, none_there, resolve_statement);
                    cached = cached;
                    sound = λ e. (0, rw (none_there, is_fine) (ground arith));
                    complete = λ h e. let e' = rw (none_there, is_fine) at e in ground arith;
                  }
                  | inr (inr (gs, many)) ↦ record {
                    resolved_entry = several s f gs;
                    cache = cache;
                    result = rw (new, many, resolve_statement);
                    cached = cached;
                    sound = λ e. cc;
                    complete = λ h e. let e' = rw (many, is_fine) at e in cc;
                  }
                  | inr (inl (g, one)) ↦ followed_lem s cache g plain of_f cached one new
                ]
        ]

    pub record AreStatements (o : Option (Entries × Cache)) (ss : List Statement) : Type 0 where
      pub entries : Entries
      pub cache : Cache
      pub result : o ≡ some (entries, cache)
      pub cached : (IsCached to_lower contents index) cache
      pub sound :
          is_fully_resolved entries ≡ true
          → (h : ℕ) × (all
                (is_fine to_lower contents index (is_ready_within to_lower contents index h))
                ss
              ≡ true)
      pub complete :
          (h : ℕ)
          → all (is_fine to_lower contents index (is_ready_within to_lower contents index h)) ss
            ≡ true
          → is_fully_resolved entries ≡ true

    abbrev pub AreOf : List Statement → Type 0
    AreOf ss =
        (h : ℕ)
        → is_ready_within to_lower contents index (suc h) f ≡ true
        → all (is_fine to_lower contents index (is_ready_within to_lower contents index h)) ss
          ≡ true

    both_fine :
        (s : Statement) (ss : List Statement) (h k : ℕ)
        → is_fine to_lower contents index (is_ready_within to_lower contents index h) s ≡ true
        → all (is_fine to_lower contents index (is_ready_within to_lower contents index k)) ss
          ≡ true
        → all
            (is_fine to_lower contents index (is_ready_within to_lower contents index (h + k)))
            (s ∷ ss)
          ≡ true
    both_fine s ss h k a b = ground (
      arith,
      is_fine-le to_lower contents index (h + k) h s (omega arith) a,
      all_fine-le to_lower contents index (h + k) k ss (omega arith) b,
    )

    pub statements_lem :
        (ss : List Statement) (cache : Cache)
        → (AllPlain to_lower contents index) ss
        → AreOf ss
        → (IsCached to_lower contents index) cache
        → AreStatements (resolve_statements to_lower recur index f path ss cache) ss
    unfolding resolve_statements is_fully_resolved
    statements_lem [] cache plain of_f cached = record {
      entries = nil;
      cache = cache;
      result = refl;
      cached = cached;
      sound = λ e. (0, refl);
      complete = λ h e. refl;
    }
    statements_lem (s ∷ ss) cache plain of_f cached =
        let first =
          statement_lem s cache plain.0 (λ h r. let e = of_f h r in ground arith) cached in
        let rest =
          statements_lem ss first.cache plain.1 (λ h r. let e = of_f h r in ground arith)
            first.cached in
        record {
          entries = cons first.resolved_entry rest.entries;
          cache = rest.cache;
          result = rw (first.result, rest.result, resolve_statements);
          cached = rest.cached;
          sound = λ e.
              let (h, a) = first.sound (ground arith) in
              let (k, b) = rest.sound (ground arith) in (h + k, both_fine s ss h k a b);
          complete = λ h e.
              let a = first.complete h (ground arith) in
              let b = rest.complete h (ground arith) in ground arith;
        }
