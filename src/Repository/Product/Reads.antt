-- ===== src/Repository/Product/Reads.antt =====
-- What a read returns, and that no read breaks the agreement of cache and table.
use belajar_backend_go_v.Base.{
  ◌⊎◌, ◌≢◌, ◌≡◌, refl, ap, ◌∙◌, inl, inr, none, some, ℤ, [], ◌∷◌, IsInt64, arith, Option-cases,
}
use belajar_backend_go_v.Json.{Document, json, unmarshal}
use belajar_backend_go_v.Models.{Product, ProductFilter, zero_product}
use belajar_backend_go_v.Models.Codec.{encode_product, encode_products}
use belajar_backend_go_v.Models.RoundTrip.{IsProduct, decode-encode_product}
use belajar_backend_go_v.Services.{
  open_state, service_unavailable, failure, GoError, no_rows, ok, err, int, Services, World,
  query_row, Result-cases,
}
use belajar_backend_go_v.Services.Laws.{IsCache}
use belajar_backend_go_v.Repository.Product.{
  product_key, list_key, select_product, scan_product, get_by_id, get_all, execute, fetch_page,
}
use belajar_backend_go_v.Repository.Product.Keys.{list_key-ne-product_key}
use belajar_backend_go_v.Repository.Product.Coherence.{
  IsCoherentWorld, set-IsCoherent, set_other-IsCoherent,
}
use belajar_backend_go_v.Repository.Contract.{IsDatabase, product_row}

no_rows-cases : (e : GoError) → (e ≡ no_rows) ⊎ (e ≢ no_rows)
no_rows-cases no_rows = inl refl
no_rows-cases open_state = inr (λ h. ground (arith, h))
no_rows-cases service_unavailable = inr (λ h. ground (arith, h))
no_rows-cases (failure message) = inr (λ h. ground (arith, h))

module _ (S : Services) (L : IsDatabase S) (C : IsCache S.cache) where
  -- From a cached entry.
  pub get_by_id_hit :
      (id : ℤ) (w : World S) (d : Document) (p : Product)
      → S.cache.get (product_key id) w.store ≡ some d
      → d ≡ json (encode_product p)
      → IsProduct p
      → get_by_id S id w ≡ (ok p, w)
  unfolding get_by_id unmarshal
  get_by_id_hit id w d p hit same range = ground (arith, decode-encode_product p zero_product range)

  -- From the table.
  get_by_id_miss :
      (id : ℤ) (w : World S) (p : Product)
      → S.cache.get (product_key id) w.store ≡ none
      → (query_row S.database select_product (int id ∷ []) w.db).0 ≡ ok (product_row p)
      → get_by_id S id w ≡ (
        ok p,
        record w {
          db = (query_row S.database select_product (int id ∷ []) w.db).1;
          store = S.cache.set (product_key id) (json (encode_product p)) 600 w.store;
        },
      )
  unfolding get_by_id scan_product
  get_by_id_miss id w p miss found = ground arith

  get_by_id_failed :
      (id : ℤ) (w : World S) (e : GoError)
      → S.cache.get (product_key id) w.store ≡ none
      → (query_row S.database select_product (int id ∷ []) w.db).0 ≡ err e
      → get_by_id S id w
        ≡ (err e, record w { db = (query_row S.database select_product (int id ∷ []) w.db).1 })
  unfolding get_by_id
  get_by_id_failed id w e miss failed = ground arith

  pub get_by_id-IsCoherent :
      (id : ℤ) (w : World S)
      → IsInt64 id
      → IsCoherentWorld S L w
      → let (r, w') = get_by_id S id w in
        ((p : Product) → r ≡ ok p → (L.tables w.db).product id ≡ some p)
        × (r ≡ err no_rows → (L.tables w.db).product id ≡ none)
        × (L.tables w'.db ≡ L.tables w.db)
        × IsCoherentWorld S L w'
  get_by_id-IsCoherent id w hid h = elim (Option-cases (S.cache.get (product_key id) w.store)) [
    | inr (d, hit) ↦
        let (p, found, same, range) = h id d hid hit in
        rw (get_by_id_hit id w d p hit same range) ((λ q e. cc (found, e)), (λ e. cc), refl, h)
    | inl miss ↦ elim (Result-cases (query_row S.database select_product (int id ∷ []) w.db).0) [
      | inl (row, read) ↦
          let (p, found, shape, _, range) = L.select-ok id w.db row read in
          rw (get_by_id_miss id w p miss (read ∙ ap ok shape)) (
            (λ q e. cc (found, e)),
            (λ e. cc),
            L.select-reads id w.db,
            rw (L.select-reads id w.db)
                (set-IsCoherent S.cache C (L.tables w.db) w.store id p 600 hid found range h),
          )
      | inr (e, failed) ↦ rw (get_by_id_failed id w e miss failed) (
        (λ q x. cc),
        (λ x. L.select-none id w.db (cc (failed, x))),
        L.select-reads id w.db,
        rw (L.select-reads id w.db) h,
      )
    ]
  ]

  -- `GetByID` on any path, where cache and table agree: it returns the row of the id; or it returns
  -- `sql.ErrNoRows` and there is none; or it returns another error. No table changes, and cache and
  -- table still agree.
  pub get_by_id_lem :
      (id : ℤ) (w : World S)
      → IsInt64 id
      → IsCoherentWorld S L w
      → let (r, w') = get_by_id S id w in
        (((p : Product) × (r ≡ ok p) × ((L.tables w.db).product id ≡ some p))
          ⊎ ((r ≡ err no_rows) × ((L.tables w.db).product id ≡ none))
          ⊎ ((e : GoError) × (r ≡ err e) × (e ≢ no_rows)))
        × (L.tables w'.db ≡ L.tables w.db)
        × IsCoherentWorld S L w'
  get_by_id_lem id w hid h =
      let (found, missing, same, coherent) = get_by_id-IsCoherent id w hid h in
      elim (Result-cases (get_by_id S id w).0) [
        | inl (p, read) ↦ (inl (p, read, found p read), same, coherent)
        | inr (e, failed) ↦ elim (no_rows-cases e) [
          | inl none_there ↦
              let read = failed ∙ ap err none_there in
              (inr (inl (read, missing read)), same, coherent)
          | inr other ↦ (inr (inr (e, failed, other)), same, coherent)
        ]
      ]

  -- A page read past the breaker leaves the tables and the cache as they were.
  execute_reads :
      (f : ProductFilter) (w : World S)
      → let (_, w') = execute S (fetch_page S f) w in
        (L.tables w'.db ≡ L.tables w.db) × (w'.store ≡ w.store) × (w'.log ≡ w.log)
  unfolding execute fetch_page
  execute_reads f w = ground (arith, L.page-reads f w.db)

  -- `GetAll` on any path changes no table, sends nothing, and keeps the entries of single products
  -- in agreement with their rows.
  pub get_all-IsCoherent :
      (f : ProductFilter) (w : World S)
      → IsCoherentWorld S L w
      → let (_, w') = get_all S f w in
        (L.tables w'.db ≡ L.tables w.db) × (w'.log ≡ w.log) × IsCoherentWorld S L w'
  unfolding get_all
  get_all-IsCoherent f w h = elim (Option-cases (S.cache.get (list_key f) w.store)) [
    | inr (d, hit) ↦ rw (hit, get_all) (refl, refl, h)
    | inl miss ↦
        let (tables, store, log) = execute_reads f w in
        elim (Result-cases (execute S (fetch_page S f) w).0) [
          | inl (ps, read) ↦
              rw (miss, get_all)
                (rw (read, get_all)
                  (
                    tables,
                    log,
                    rw (tables, store)
                        (set_other-IsCoherent S.cache C (L.tables w.db) w.store (list_key f)
                          (json (encode_products ps)) 300 (list_key-ne-product_key f) h),
                  ))
          | inr (e, failed) ↦
              rw (miss, get_all) (rw (failed, get_all) (tables, log, rw (tables, store) h))
        ]
  ]
