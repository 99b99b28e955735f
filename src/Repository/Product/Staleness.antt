-- ===== src/Repository/Product/Staleness.antt =====
-- Entries of the cache that a write leaves behind.
use belajar_backend_go_v.Base.{
  ◌≡◌, refl, sym, ap, ◌∙◌, none, some, [], String, ℤ, ◌-ℤ◌, IsInt64, eqb_ℤ_refl, arith,
}
use belajar_backend_go_v.Json.{Document, unmarshal}
use belajar_backend_go_v.Models.{Product, ProductFilter, CheckoutRequest}
use belajar_backend_go_v.Models.Codec.{decode_products}
use belajar_backend_go_v.Services.{Result, ok, Services, World}
use belajar_backend_go_v.Services.Laws.{IsCache}
use belajar_backend_go_v.Repository.Product.{
  product_key, list_key, all_key, get_all, get_by_id, create, update, delete, forget, send_event,
}
use belajar_backend_go_v.Repository.Product.Keys.{list_key-ne-product_key, list_key-ne-all_key}
use belajar_backend_go_v.Repository.Product.Coherence.{IsCoherentWorld}
use belajar_backend_go_v.Repository.Product.Reads.{get_by_id_hit}
use belajar_backend_go_v.Repository.Contract.{IsDatabase}
use belajar_backend_go_v.Repository.Checkout.{checkout}
use belajar_backend_go_v.Repository.Checkout.Atomic.{checkout-Sold}

module _ (S : Services) (C : IsCache S.cache) where
  -- A cached page is what `GetAll` returns, with nothing else read.
  get_all_hit :
      (f : ProductFilter) (w : World S) (d : Document)
      → S.cache.get (list_key f) w.store ≡ some d
      → (get_all S f w).0 ≡ ok (unmarshal decode_products d []).0
  unfolding get_all
  get_all_hit f w d hit = rw (hit, get_all)

  -- Both deletions of a write pass a page by.
  dels_list_key :
      (f : ProductFilter) (id : ℤ) (s : S.cache.Store)
      → S.cache.get (list_key f) (S.cache.del (product_key id) (S.cache.del all_key s))
        ≡ S.cache.get (list_key f) s
  dels_list_key f id s =
      C.get-del_ne (list_key f) (product_key id) (S.cache.del all_key s)
        (list_key-ne-product_key f id)
      ∙ C.get-del_ne (list_key f) all_key s (list_key-ne-all_key f)

  create-list_key :
      (f : ProductFilter) (p : Product) (w : World S)
      → S.cache.get (list_key f) (create S p w).1.store ≡ S.cache.get (list_key f) w.store
  unfolding create send_event
  create-list_key f p w =
      ground (arith, C.get-del_ne (list_key f) all_key w.store (list_key-ne-all_key f))

  update-list_key :
      (f : ProductFilter) (p : Product) (w : World S)
      → S.cache.get (list_key f) (update S p w).1.store ≡ S.cache.get (list_key f) w.store
  unfolding update forget send_event
  update-list_key f p w = ground (arith, dels_list_key f p.id w.store)

  delete-list_key :
      (f : ProductFilter) (id : ℤ) (w : World S)
      → S.cache.get (list_key f) (delete S id w).1.store ≡ S.cache.get (list_key f) w.store
  unfolding delete forget send_event
  delete-list_key f id w = ground (arith, dels_list_key f id w.store)

  -- No write reaches the cached pages: the key that the writes delete is one that no read uses.
  -- After a create, an update or a delete, successful or not, `GetAll` answers every page that was
  -- cached exactly as before.
  pub get_all_stale :
      (f : ProductFilter) (p : Product) (id : ℤ) (w : World S) (d : Document)
      → S.cache.get (list_key f) w.store ≡ some d
      → ((get_all S f (create S p w).1).0 ≡ (get_all S f w).0)
        × ((get_all S f (update S p w).1).0 ≡ (get_all S f w).0)
        × ((get_all S f (delete S id w).1).0 ≡ (get_all S f w).0)
  get_all_stale f p id w d hit =
      let before = get_all_hit f w d hit in
      (
        get_all_hit f (create S p w).1 d (create-list_key f p w ∙ hit) ∙ sym before,
        get_all_hit f (update S p w).1 d (update-list_key f p w ∙ hit) ∙ sym before,
        get_all_hit f (delete S id w).1 d (delete-list_key f id w ∙ hit) ∙ sym before,
      )

  -- `Checkout` deletes no entry. If the product was cached, then after a successful checkout
  -- `GetByID` still returns the row from before, while the table's stock is down by the quantity.
  pub get_by_id_stale :
      (L : IsDatabase S) (user_id : ℤ) (user_email : String) (req : CheckoutRequest) (w : World S)
      (d : Document)
      → IsInt64 req.product_id
      → IsCoherentWorld S L w
      → S.cache.get (product_key req.product_id) w.store ≡ some d
      → let (failed, w') = checkout S user_id user_email req w in
        failed ≡ none
        → (p : Product) × ((L.tables w.db).product req.product_id ≡ some p)
          × ((get_by_id S req.product_id w').0 ≡ ok p)
          × ((L.tables w'.db).product req.product_id
              ≡ some (record p { stock = p.stock -ℤ req.quantity }))
  get_by_id_stale L user_id user_email req w d hid h hit fine =
      let w' : World S = (checkout S user_id user_email req w).1 in
      let (p, found, same, range) = h req.product_id d hid hit in
      let (total, sold, _, store, _) = checkout-Sold S L user_id user_email req w fine in
      let old : sold.product ≡ p = cc (sold.found, found) in
      let hit' : S.cache.get (product_key req.product_id) w'.store ≡ some d = rw store hit in
      (
        p,
        found,
        ap (λ (r : Result Product × World S). r.0)
            (get_by_id_hit S L C req.product_id w' d p hit' same range),
        rw (sold.changed, eqb_ℤ_refl req.product_id, old) refl,
      )
