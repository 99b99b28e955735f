-- ===== src/Tests/Shop.antt =====
-- Checkouts and stock through the handlers, on the shop in memory.
use belajar_backend_go_v.Base.{◌≡◌, refl, ◌⊎◌, none, some, List, [], ◌∷◌, ℤ, pos, arith, wrap32}
use belajar_backend_go_v.Models.{Product}
use belajar_backend_go_v.Json.{json, obj, member, num, end}
use belajar_backend_go_v.Http.{Request, fresh_response, http_writer, empty_context}
use belajar_backend_go_v.Repository.Memory.{memory}
use belajar_backend_go_v.Repository.Memory.Laws.{memory-IsDatabase, memory-IsAtomic}
use belajar_backend_go_v.Repository.Memory.Stores.{mem_cache-IsCache}
use belajar_backend_go_v.Handler.Status.{status_of, state_of}
use belajar_backend_go_v.Handler.Checkout.{handle_checkout}
use belajar_backend_go_v.Handler.Checkout.Replies.{Bought, handle_checkout_lem}
use belajar_backend_go_v.Repository.Checkout.Conservation.{Kept}
use belajar_backend_go_v.Handler.Checkout.Runs.{Fell, serve_checkouts, serve_checkouts-Kept}
use belajar_backend_go_v.Handler.Grpc.{get_stock, response, not_found, internal}
use belajar_backend_go_v.Handler.Grpc.Stock.{get_stock_lem}
use belajar_backend_go_v.Tests.Fixtures.{
  pen, shop, empty-IsCoherent, tag_validator, tag_validator-IsValidator,
}

-- The buyer's request for two pens.
abbrev buy_request : Request
buy_request = record {
  method = "POST";
  path = "checkout" ∷ [];
  path_id = "";
  query = λ key. "";
  authorization = "";
  remote_addr = "10.0.0.1:4711";
  body = json (obj (member "product_id" (num (pos 1)) (member "quantity" (num (pos 2)) end)));
  context = record empty_context { user_id = some (pos 7) };
}

handle_checkout_lem_example :
    let o = handle_checkout memory tag_validator buy_request fresh_response shop in
    ((status_of o ≡ some 200)
      × (user_id : ℤ) × Bought memory tag_validator memory-IsDatabase memory-IsAtomic buy_request
          user_id shop
          (state_of o))
    ⊎ (((status_of o ≡ some 400)
          ⊎ ((status_of o ≡ some 401) × (buy_request.context.user_id ≡ none)))
        × ((state_of o).db.tables ≡ shop.db.tables)
        × ((state_of o).log ≡ []))
unfolding memory-IsDatabase
handle_checkout_lem_example =
    handle_checkout_lem memory tag_validator memory-IsDatabase memory-IsAtomic buy_request shop

get_stock_lem_example :
    let answer = (get_stock memory (pos 1) shop).0 in
    ((p : Product) × (some pen ≡ some p)
      × (answer ≡ response (record { id = wrap32 p.id; name = p.name; stock = wrap32 p.stock })))
    ⊎ ((some pen ≡ none) × (answer ≡ not_found "produk tidak ditemukan"))
    ⊎ (answer ≡ internal "error database")
unfolding memory-IsDatabase
get_stock_lem_example =
    get_stock_lem memory memory-IsDatabase mem_cache-IsCache (pos 1) shop (omega arith)
      empty-IsCoherent

abbrev shoppers : List Request
shoppers = buy_request ∷ record buy_request { context = empty_context } ∷ buy_request ∷ []

serve_checkouts-Kept_example :
    (k : Kept
      (pos 1)
      pen
      shop.db.tables
      (serve_checkouts memory tag_validator shoppers shop).db.tables)
    × Fell pen k.product
unfolding memory-IsDatabase
serve_checkouts-Kept_example =
    serve_checkouts-Kept memory tag_validator memory-IsDatabase memory-IsAtomic
      tag_validator-IsValidator shoppers shop (pos 1) pen refl
