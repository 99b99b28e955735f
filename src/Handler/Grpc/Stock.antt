-- ===== src/Handler/Grpc/Stock.antt =====
-- What `GetStock` of handler/grpc_handler.go answers, against the table of products.
use belajar_backend_go_v.Base.{◌≡◌, refl, ap, ◌∙◌, ◌⊎◌, inl, inr, none, some, ℤ, IsInt64, wrap32}
use belajar_backend_go_v.Models.{Product}
use belajar_backend_go_v.Services.{
  GoError, no_rows, open_state, service_unavailable, failure, ok, err, Services, World,
  Result-cases,
}
use belajar_backend_go_v.Services.Laws.{IsCache}
use belajar_backend_go_v.Repository.Product.{get_by_id}
use belajar_backend_go_v.Repository.Product.Coherence.{IsCoherentWorld}
use belajar_backend_go_v.Repository.Product.Reads.{get_by_id-IsCoherent}
use belajar_backend_go_v.Repository.Contract.{IsDatabase}
use belajar_backend_go_v.Handler.Grpc.{response, not_found, internal, get_stock}

module _ (S : Services) (L : IsDatabase S) (C : IsCache S.cache) where
  get_stock_ok :
      (id : ℤ) (w : World S) (p : Product)
      → (get_by_id S id w).0 ≡ ok p
      → (get_stock S id w).0
        ≡ response (record { id = wrap32 p.id; name = p.name; stock = wrap32 p.stock })
  unfolding get_stock
  get_stock_ok id w p e = rw (e, get_stock) refl

  get_stock_err :
      (id : ℤ) (w : World S) (e : GoError)
      → (get_by_id S id w).0 ≡ err e
      → ((e ≡ no_rows) × ((get_stock S id w).0 ≡ not_found "produk tidak ditemukan"))
        ⊎ ((get_stock S id w).0 ≡ internal "error database")
  unfolding get_stock
  get_stock_err id w no_rows h = inl (refl, rw (h, get_stock) refl)
  get_stock_err id w open_state h = inr (rw (h, get_stock) refl)
  get_stock_err id w service_unavailable h = inr (rw (h, get_stock) refl)
  get_stock_err id w (failure m) h = inr (rw (h, get_stock) refl)

  pub get_stock_lem :
      (id : ℤ) (w : World S)
      → IsInt64 id
      → IsCoherentWorld S L w
      → ((p : Product) × ((L.tables w.db).product id ≡ some p)
          × ((get_stock S id w).0
              ≡ response (record { id = wrap32 p.id; name = p.name; stock = wrap32 p.stock })))
        ⊎ (((L.tables w.db).product id ≡ none)
            × ((get_stock S id w).0 ≡ not_found "produk tidak ditemukan"))
        ⊎ ((get_stock S id w).0 ≡ internal "error database")
  get_stock_lem id w range h =
      let (found, missing, _, _) = get_by_id-IsCoherent S L C id w range h in
      elim (Result-cases (get_by_id S id w).0) [
        | inl (p, read) ↦ inl (p, found p read, get_stock_ok id w p read)
        | inr (e, failed) ↦ elim (get_stock_err id w e failed) [
          | inl (none_there, answer) ↦ inr (inl (missing (failed ∙ ap err none_there), answer))
          | inr answer ↦ inr (inr answer)
        ]
      ]
