-- ===== src/Repository/Product/Race/Stale.antt =====
-- An update between the query of a `GetByID` and its `Set`.
use belajar_backend_go_v.Base.{◌≡◌, refl, inl, inr, none, some, [], ◌∷◌, arith, IsInt64, eqb_ℤ_refl}
use belajar_backend_go_v.Json.{Document, json}
use belajar_backend_go_v.Models.{Product}
use belajar_backend_go_v.Models.Codec.{encode_product}
use belajar_backend_go_v.Services.{ok, txt, int, Services, World}
use belajar_backend_go_v.Services.Laws.{IsCache}
use belajar_backend_go_v.Repository.Contract.{IsDatabase}
use belajar_backend_go_v.Repository.Product.{
  product_key, all_key, update_product, update, get_by_id, forget, send_event,
}
use belajar_backend_go_v.Repository.Product.Reads.{get_by_id_hit}
use belajar_backend_go_v.Repository.Product.Race.{read_row, fill}
use belajar_backend_go_v.Repository.Product.Race.Schedules.{read_row_lem}

module _ (S : Services) (L : IsDatabase S) (C : IsCache S.cache) where
  -- A successful update in its parts.
  update_done :
      (q : Product) (w : World S)
      → let (failed, db) =
          S.database.exec update_product
            (txt q.name ∷ int q.price ∷ int q.stock ∷ int q.id ∷ [])
            w.db in
        (update S q w).0 ≡ none
        → (failed ≡ none)
          × ((update S q w).1.db ≡ db)
          × ((update S q w).1.store ≡ S.cache.del (product_key q.id) (S.cache.del all_key w.store))
  unfolding update forget send_event
  update_done q w fine = ground arith

  -- A `GetByID` has queried a row, an update of the same product succeeds, and the `GetByID` then
  -- fills the cache. If the product is cached from there on, then `GetByID` answers the row from
  -- before the update, while the table has the new one.
  pub get_by_id_race :
      (p q : Product) (w : World S) (d : Document)
      → IsInt64 q.id
      → (read_row S q.id w).0 ≡ ok p
      → let (failed, w2) = update S q (read_row S q.id w).1 in
        let w3 = fill S q.id p w2 in
        failed ≡ none
        → S.cache.get (product_key q.id) w3.store ≡ some d
        → (get_by_id S q.id w3 ≡ (ok p, w3)) × ((L.tables w3.db).product q.id ≡ some q)
  unfolding fill
  get_by_id_race p q w d range read fine hit =
      let w1 = (read_row S q.id w).1 in
      let (found, shape, tables, _) = read_row_lem S L q.id p w read in
      let (executed, db, store) = update_done q w1 fine in
      let changed = L.update-ok q w1.db executed in
      elim (C.get-set (product_key q.id) (product_key q.id) (json (encode_product p)) d 600
        (update S q w1).1.store hit) [
          | inl (_, same) ↦ (
            get_by_id_hit S L C q.id (fill S q.id p (update S q w1).1) d p hit same shape,
            rw (db, changed, eqb_ℤ_refl q.id, tables, found) refl,
          )
          | inr older ↦ absurd (
              (C.get-del (product_key q.id) (product_key q.id) d (S.cache.del all_key w1.store)
                  (rw store at older)).0
                refl)
        ]
