-- ===== src/Repository/Product/Race/Schedules.antt =====
-- The schedules of reads and writes in which the cache stays right.
use mathlib.Core.Path.{subst}
use belajar_backend_go_v.Base.{
  ◌≡◌, ◌≢◌, refl, sym, ap, ◌∙◌, inl, inr, Option, none, some, List, [], ◌∷◌, ◌++◌, ℤ, IsInt64,
  eqb_ℤ, eqb_ℤ_iff, Bool-cases, arith,
}
use belajar_backend_go_v.Models.{Product}
use belajar_backend_go_v.Models.RoundTrip.{IsProduct}
use belajar_backend_go_v.Services.{ok, Services, World, Result-cases, query_row, int}
use belajar_backend_go_v.Services.Laws.{IsCache}
use belajar_backend_go_v.Repository.Contract.{Tables, set_row, IsDatabase, IsAtomic}
use belajar_backend_go_v.Repository.Product.{select_product, scan_product}
use belajar_backend_go_v.Repository.Product.Coherence.{IsCoherentWorld, set-IsCoherent}
use belajar_backend_go_v.Repository.Product.Reads.{get_all-IsCoherent}
use belajar_backend_go_v.Repository.Product.Writes.{create_lem, update_lem, delete_lem}
use belajar_backend_go_v.Repository.Product.Race.{
  Busy, Change, to_create, to_update, to_delete, commit, NoneReads, Spares, Step, reads, fills,
  lists, commits, Reach, starts, then, read_row, fill,
}

-- Each row that a request holds is that of the table.
abbrev pub AllFresh : Tables → List (ℤ × Product) → Type 0
AllFresh t [] = Unit
AllFresh t ((id, p) ∷ rs) = (IsInt64 id × (t.product id ≡ some p) × IsProduct p) × AllFresh t rs

AllFresh-remove :
    (t : Tables) (id : ℤ) (p : Product) (before after : List (ℤ × Product))
    → AllFresh t (before ++ (id, p) ∷ after)
    → (IsInt64 id × (t.product id ≡ some p) × IsProduct p) × AllFresh t (before ++ after)
AllFresh-remove t id p [] after fresh = fresh
AllFresh-remove t id p (r ∷ before) after (own, fresh) =
    let (this, rest) = AllFresh-remove t id p before after fresh in (this, (own, rest))

-- A row is kept by a change of another.
kept :
    (t : Tables) (id j : ℤ) (row : Option Product) (p : Product)
    → j ≢ id
    → t.product j ≡ some p
    → (set_row id row t).product j ≡ some p
kept t id j row p other found = elim (Bool-cases (eqb_ℤ j id)) [
  | inl same ↦ absurd (other ((eqb_ℤ_iff j id).0 same))
  | inr differs ↦ rw differs found
]

AllFresh-set_row :
    (t : Tables) (id : ℤ) (row : Option Product) (rs : List (ℤ × Product))
    → NoneReads id rs
    → AllFresh t rs
    → AllFresh (set_row id row t) rs
AllFresh-set_row t id row [] none_reads fresh = tt
AllFresh-set_row t id row ((j, p) ∷ rs) (other, others) ((range, found, shape), fresh) =
    ((range, kept t id j row p other found, shape), AllFresh-set_row t id row rs others fresh)

-- No request holds a row that is not there.
NoneReads-fresh :
    (t : Tables) (id : ℤ) (rs : List (ℤ × Product))
    → t.product id ≡ none
    → AllFresh t rs
    → NoneReads id rs
NoneReads-fresh t id [] free fresh = tt
NoneReads-fresh t id ((j, p) ∷ rs) free ((range, found, shape), fresh) =
    ((λ e. ground (arith, ap t.product e, found, free)), NoneReads-fresh t id rs free fresh)

module _ (S : Services) (L : IsDatabase S) where
  -- What the query gave is the row, and it changed nothing.
  pub read_row_lem :
      (id : ℤ) (p : Product) (w : World S)
      → (read_row S id w).0 ≡ ok p
      → ((L.tables w.db).product id ≡ some p)
        × IsProduct p
        × (L.tables (read_row S id w).1.db ≡ L.tables w.db)
        × ((read_row S id w).1.store ≡ w.store)
  unfolding read_row scan_product
  read_row_lem id p w read =
      elim (Result-cases (query_row S.database select_product (int id ∷ []) w.db).0) [
        | inl (row, queried) ↦
            let (q, found, shape, _, range) = L.select-ok id w.db row queried in
            let same : q ≡ p = ground (arith, read, queried, shape) in
            (found ∙ ap some same, rw (sym same) range, L.select-reads id w.db, refl)
        | inr (e, failed) ↦ absurd (ground (arith, read, failed))
      ]

  -- Cache and table agree, and so will what the requests are about to write.
  abbrev pub IsFresh : Busy S → Type 0
  IsFresh b = IsCoherentWorld S L b.world × AllFresh (L.tables b.world.db) b.reading

module _ (S : Services) (L : IsDatabase S) (A : IsAtomic S L) (C : IsCache S.cache) where
  commit-IsFresh :
      (c : Change S) (b : Busy S)
      → Spares S c b.reading
      → IsFresh S L b
      → IsFresh S L (record b { world = commit S c b.world })
  unfolding commit
  commit-IsFresh (to_create p) b spares (coherent, fresh) =
      let (result, coherent') = create_lem S L A C p b.world coherent in
      (
        coherent',
        elim result [
          | inl (q, _, _, free, changed) ↦ rw changed (
              AllFresh-set_row (L.tables b.world.db) q.id (some q) b.reading
                (NoneReads-fresh (L.tables b.world.db) q.id b.reading free fresh) fresh)
          | inr (e, _, same) ↦ rw same fresh
        ],
      )
  commit-IsFresh (to_update p) b spares (coherent, fresh) =
      let (result, coherent') = update_lem S L A C p b.world coherent in
      (
        coherent',
        elim result [
          | inl (_, changed) ↦
              rw changed (AllFresh-set_row (L.tables b.world.db) p.id _ b.reading spares fresh)
          | inr (e, _, same) ↦ rw same fresh
        ],
      )
  commit-IsFresh (to_delete id) b spares (coherent, fresh) =
      let (result, coherent') = delete_lem S L A C id b.world coherent in
      (
        coherent',
        elim result [
          | inl (_, changed) ↦
              rw changed (AllFresh-set_row (L.tables b.world.db) id none b.reading spares fresh)
          | inr (e, _, same) ↦ rw same fresh
        ],
      )

  Step-IsFresh : {b b' : Busy S} → Step S b b' → IsFresh S L b → IsFresh S L b'
  unfolding fill
  Step-IsFresh (reads id p b range read) (coherent, fresh) =
      let (found, shape, tables, store) = read_row_lem S L id p b.world read in
      let held = subst (λ t. AllFresh t b.reading) (sym tables) fresh in
      (rw (tables, store) coherent, ((range, rw tables found, shape), held))
  Step-IsFresh (fills id p b before after split) (coherent, fresh) =
      let held : AllFresh (L.tables b.world.db) (before ++ (id, p) ∷ after) = rw split at fresh in
      let ((range, found, shape), others) =
        AllFresh-remove (L.tables b.world.db) id p before after held in
      (
        set-IsCoherent S.cache C (L.tables b.world.db) b.world.store id p 600 range found shape
            coherent,
        others,
      )
  Step-IsFresh (lists f b) (coherent, fresh) =
      let (same, _, coherent') = get_all-IsCoherent S L C f b.world coherent in
      (coherent', rw same fresh)
  Step-IsFresh (commits c b spares) fresh = commit-IsFresh c b spares fresh

  pub Reach-IsFresh :
      {start : World S} {b : Busy S} → IsCoherentWorld S L start → Reach S start b → IsFresh S L b
  Reach-IsFresh coherent starts = (coherent, tt)
  Reach-IsFresh coherent (then reached step) = Step-IsFresh step (Reach-IsFresh coherent reached)
