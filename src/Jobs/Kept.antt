-- ===== src/Jobs/Kept.antt =====
-- A property of one job that every permitted call keeps is kept by any sequence of such calls.
use alsm_web_be.Base.{
  ℕ, Bool, true, ◌≡◌, sym, ◌∙◌, none, some, List, [], ◌∷◌, Table, lookup, insert, all, inl, inr,
  arith, ◌==◌, ==_iff, Bool-cases, lookup-insert_self, lookup-insert_ne,
}
use alsm_web_be.Jobs.Types.{Job}
use alsm_web_be.Jobs.Calls.{Call, guard, effect, apply, run}
use alsm_web_be.Jobs.Changes.{Changed, same, wrote, made, first_job, apply-Changed}

module _ (P : Job → Type 0) (permitted : Call → Bool)
    (keeps : (c : Call) (j : Job)
      → permitted c ≡ true
      → P j
      → guard c j ≡ true
      → P (effect c j)) where
  abbrev pub Stored : ℕ → Table Job → Type 0
  Stored id t = (k : Job) × (lookup id t ≡ some k) × P k

  write-Stored :
      (c : Call) (s : Table Job) (j : Job) (id : ℕ)
      → lookup c.id s ≡ some j
      → guard c j ≡ true
      → permitted c ≡ true
      → Stored id s
      → Stored id (insert c.id (effect c j) s)
  write-Stored c s j id found fits ok (k, there, holds) = elim (Bool-cases (id == c.id)) [
    | inl here ↦
        let e : id ≡ c.id = (==_iff id c.id).0 here in
        let known : some k ≡ some j = sym there ∙ (rw e found) in
        let eqk : k ≡ j = cc in
        (
          effect c j,
          rw e (lookup-insert_self c.id (effect c j) s),
          keeps c j ok (rw eqk at holds) fits,
        )
    | inr other ↦
        (k, lookup-insert_ne c.id id (effect c j) s (λ e. cc ((==_iff id c.id).1 e)) ∙ there, holds)
  ]

  make-Stored :
      (c : Call) (s : Table Job) (j : Job) (id : ℕ)
      → lookup c.id s ≡ none
      → Stored id s
      → Stored id (insert c.id j s)
  make-Stored c s j id absent (k, there, holds) =
      (k, lookup-insert_ne c.id id j s (λ e. cc (rw e at there, absent)) ∙ there, holds)

  Changed-Stored :
      (c : Call) (s t : Table Job) (id : ℕ)
      → permitted c ≡ true
      → Changed c s t
      → Stored id s
      → Stored id t
  Changed-Stored c s t id ok same h = h
  Changed-Stored c s t id ok (wrote j found fits) h = write-Stored c s j id found fits ok h
  Changed-Stored c s t id ok (made n absent) h = make-Stored c s (first_job n c.now) id absent h

  pub run-Stored :
      (cs : List Call) (t : Table Job) (id : ℕ)
      → all permitted cs ≡ true
      → Stored id t
      → Stored id (run cs t)
  unfolding run
  run-Stored [] t id ok h = h
  run-Stored (c ∷ cs) t id ok h =
      run-Stored cs (apply c t) id (ground arith)
        (Changed-Stored c t (apply c t) id (ground arith) (apply-Changed c t) h)
