-- ===== src/Tests/Checkout.antt =====
-- A small shop in memory: checkouts and reads of the repository.
use belajar_backend_go_v.Base.{
  ◌⊎◌, ◌≢◌, ◌≡◌, refl, none, some, [], ◌∷◌, ℤ, pos, ◌-ℤ◌, ◌*ℤ◌, ◌+ℤ◌, wrap64, arith,
}
use belajar_backend_go_v.Models.{Product, CheckoutRequest, ProductFilter, get_offset}
use belajar_backend_go_v.Models.Codec.{encode_product, encode_products, decode_products}
use belajar_backend_go_v.Services.{GoError, ok, err, World, no_rows, query_row, tx_query_row}
use belajar_backend_go_v.Json.{unmarshal, json, decode_struct, fits, decode_int, decode_string}
use belajar_backend_go_v.Strconv.{itoa}
use belajar_backend_go_v.Repository.Product.{
  product_key, list_key, get_by_id, get_all, update, create, delete, execute, fetch_page,
  build_query, search_clause, collect_rows,
}
use belajar_backend_go_v.Repository.Product.Coherence.{IsCoherentWorld}
use belajar_backend_go_v.Repository.Product.Reads.{get_by_id_lem}
use belajar_backend_go_v.Repository.Product.Staleness.{get_by_id_stale, get_all_stale}
use belajar_backend_go_v.Repository.Checkout.{checkout, out_of_stock, send_invoice}
use belajar_backend_go_v.Repository.Checkout.Atomic.{Sold, checkout-Sold, checkout_failed}
use belajar_backend_go_v.Repository.Memory.{memory, mem_begin, mem_tx_query, mem_exec, mem_query}
use belajar_backend_go_v.Tests.Fixtures.{pen, shop, no_pens, empty-IsCoherent}
use belajar_backend_go_v.Repository.Memory.Laws.{memory-IsDatabase, memory-IsAtomic}
use belajar_backend_go_v.Repository.Memory.Stores.{mem_cache-IsCache}

abbrev first_page : ProductFilter
first_page = record { page = pos 1; limit = pos 10; search = "" }

abbrev pub four_pens : CheckoutRequest
four_pens = record { product_id = pos 1; quantity = pos 4 }

-- What a run in memory has to see through.
runs : Unit {0}
unfolding checkout mem_begin tx_query_row mem_tx_query mem_exec get_by_id query_row mem_query
    get_all unmarshal memory-IsDatabase product_key itoa ◌-ℤ◌
runs = tt

pages : Unit {0}
unfolding runs list_key execute fetch_page build_query search_clause collect_rows get_offset ◌*ℤ◌
    ◌+ℤ◌ wrap64 encode_products decode_products decode_struct fits encode_product decode_int
    decode_string
pages = tt

abbrev after_sale : World memory
after_sale = (checkout memory (pos 7) "ann@example.com" four_pens shop).1

pub sale_result :
    ((checkout memory (pos 7) "ann@example.com" four_pens shop).0 ≡ none)
    × (after_sale.db.tables.product (pos 1) ≡ some (record pen { stock = pos 6 }))
unfolding runs
sale_result = (refl, refl)

-- Eleven pens are more than there are.
eleven_pens :
    (checkout memory (pos 7) "" (record four_pens { quantity = pos 11 }) shop).0 ≡ some out_of_stock
unfolding runs
eleven_pens = refl

checkout-Sold_example :
    (total : ℤ) × Sold (pos 7) four_pens total shop.db.tables after_sale.db.tables
    × (after_sale.log ≡ (send_invoice memory (pos 7) "ann@example.com" four_pens total []).1)
    × (after_sale.store ≡ shop.store)
    × (after_sale.circuit ≡ none)
unfolding memory-IsDatabase
checkout-Sold_example =
    checkout-Sold memory memory-IsDatabase (pos 7) "ann@example.com" four_pens shop sale_result.0

checkout_failed_example :
    let w' : World memory =
      (checkout memory (pos 7) "" (record four_pens { quantity = pos 11 }) shop).1 in
    (w'.db.tables ≡ shop.db.tables) × (w'.log ≡ []) × (w'.store ≡ shop.store) × (w'.circuit ≡ none)
unfolding memory-IsDatabase
checkout_failed_example =
    checkout_failed memory memory-IsDatabase memory-IsAtomic (pos 7) ""
      (record four_pens { quantity = pos 11 }) shop out_of_stock eleven_pens

get_by_id_lem_example :
    let (r, w') = get_by_id memory (pos 1) shop in
    (((p : Product) × (r ≡ ok p) × (some pen ≡ some p))
      ⊎ ((r ≡ err no_rows) × (some pen ≡ none))
      ⊎ ((e : GoError) × (r ≡ err e) × (e ≢ no_rows)))
    × (w'.db.tables ≡ shop.db.tables)
    × IsCoherentWorld memory memory-IsDatabase w'
unfolding memory-IsDatabase
get_by_id_lem_example =
    get_by_id_lem memory memory-IsDatabase mem_cache-IsCache (pos 1) shop (omega arith)
      empty-IsCoherent

-- The product is read, and so cached, before it is sold.
abbrev seen : World memory
seen = (get_by_id memory (pos 1) shop).1

seen-IsCoherent : IsCoherentWorld memory memory-IsDatabase seen
unfolding memory-IsDatabase
seen-IsCoherent =
    (get_by_id_lem memory memory-IsDatabase mem_cache-IsCache (pos 1) shop (omega arith)
      empty-IsCoherent).2

get_by_id_stale_example :
    let w' : World memory = (checkout memory (pos 7) "" four_pens seen).1 in
    (p : Product) × (seen.db.tables.product (pos 1) ≡ some p)
    × ((get_by_id memory (pos 1) w').0 ≡ ok p)
    × (w'.db.tables.product (pos 1) ≡ some (record p { stock = p.stock -ℤ pos 4 }))
unfolding runs
get_by_id_stale_example =
    get_by_id_stale memory mem_cache-IsCache memory-IsDatabase (pos 7) "" four_pens seen
      (json (encode_product pen)) (omega arith) seen-IsCoherent refl refl

-- The page is read, and so cached.
abbrev paged : World memory
paged = (get_all memory first_page shop).1

get_all_stale_example :
    ((get_all memory first_page (create memory no_pens paged).1).0 ≡ ok (pen ∷ []))
    × ((get_all memory first_page (update memory no_pens paged).1).0 ≡ ok (pen ∷ []))
    × ((get_all memory first_page (delete memory (pos 1) paged).1).0 ≡ ok (pen ∷ []))
unfolding pages
get_all_stale_example =
    get_all_stale memory mem_cache-IsCache first_page no_pens (pos 1) paged
      (json (encode_products (pen ∷ []))) refl
