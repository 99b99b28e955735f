-- ===== src/Handler/Product/Busy.antt =====
-- `GetAllProducts` of handler/product_handler.go while the circuit of pkg/resiliency is open.
use belajar_backend_go_v.Base.{◌≡◌, refl, ap, none, some, [], ◌∷◌, arith}
use belajar_backend_go_v.Services.{open_state, Services, World, Validator, err, service_unavailable}
use belajar_backend_go_v.Http.{
  Request, fresh_response, http_writer, send_status, send_content, set_pair,
}
use belajar_backend_go_v.Utils.Response.{response_error}
use belajar_backend_go_v.Repository.Product.{list_key, get_all, execute, breaker_error}
use belajar_backend_go_v.Handler.Status.{status_of, state_of, headers_of}
use belajar_backend_go_v.Handler.Product.{read_filter, get_all_products}

module _ (S : Services) (V : Validator) where
  get_all_open :
      (r : Request) (st : World S)
      → S.cache.get (list_key (read_filter r.query)) st.store ≡ none
      → (S.breaker.admit st.circuit).0 ≡ some open_state
      → get_all S (read_filter r.query) st
        ≡ (err service_unavailable, record st { circuit = (S.breaker.admit st.circuit).1 })
  unfolding get_all execute breaker_error
  get_all_open r st miss refused = ground arith

  -- While the circuit is open, a page that is not cached is answered with 503 and the advice to
  -- come back in 30 seconds, and neither the database, nor the cache, nor the broker is touched.
  pub get_all_products_open :
      (r : Request) (st : World S)
      → S.cache.get (list_key (read_filter r.query)) st.store ≡ none
      → (S.breaker.admit st.circuit).0 ≡ some open_state
      → let o = get_all_products S V r fresh_response st in
        (status_of o ≡ some 503)
        × (headers_of o ≡ ("Retry-After", "30") ∷ ("Content-Type", "application/json") ∷ [])
        × (state_of o ≡ record st { circuit = (S.breaker.admit st.circuit).1 })
  unfolding get_all_products response_error send_status send_content set_pair
  get_all_products_open r st miss refused =
      rw (get_all_open r st miss refused, get_all_products)
        (refl, refl, ap (λ z. z.1) (get_all_open r st miss refused))
