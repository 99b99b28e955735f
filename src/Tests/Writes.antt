-- ===== src/Tests/Writes.antt =====
-- The writes of the repository and their handlers, on the shop in memory.
use belajar_backend_go_v.Base.{◌≡◌, ◌⊎◌, none, some, [], ◌∷◌, pos, ◌≢◌, ◌≤ℤ◌}
use belajar_backend_go_v.Models.{zero_product}
use belajar_backend_go_v.Models.Codec.{encode_product, decode_product}
use belajar_backend_go_v.Json.{json, unmarshal}
use belajar_backend_go_v.Strconv.{atoi}
use belajar_backend_go_v.Services.{GoError}
use belajar_backend_go_v.Http.{Request, fresh_response, http_writer, empty_context}
use belajar_backend_go_v.Repository.Contract.{set_row}
use belajar_backend_go_v.Repository.Product.{update}
use belajar_backend_go_v.Repository.Product.Coherence.{IsCoherentWorld}
use belajar_backend_go_v.Repository.Product.Writes.{update_lem}
use belajar_backend_go_v.Repository.Memory.{memory}
use belajar_backend_go_v.Repository.Memory.Laws.{memory-IsDatabase, memory-IsAtomic}
use belajar_backend_go_v.Repository.Memory.Stores.{mem_cache-IsCache}
use belajar_backend_go_v.Handler.Status.{status_of, state_of}
use belajar_backend_go_v.Handler.Product.Show.{Shown, IsQuiet, handle_get_product_by_id-Shown}
use belajar_backend_go_v.Handler.Product.{
  handle_create_product, handle_update_product, handle_delete_product, handle_get_product_by_id,
}
use belajar_backend_go_v.Handler.Product.Changes.{Replied, IsAddition, IsReplacement, IsRemoval}
use belajar_backend_go_v.Handler.Product.Replies.{
  handle_create_product-Replied, handle_update_product-Replied, handle_delete_product-Replied,
}
use belajar_backend_go_v.Handler.Product.Validation.{handle_create_product_valid}
use belajar_backend_go_v.Tests.Fixtures.{
  pen, shop, no_pens, empty-IsCoherent, tag_validator, tag_validator-IsValidator,
}

update_lem_example :
    let (failed, w') = update memory no_pens shop in
    (((failed ≡ none) × (w'.db.tables ≡ set_row (pos 1) (some no_pens) shop.db.tables))
      ⊎ ((e : GoError) × (failed ≡ some e) × (w'.db.tables ≡ shop.db.tables)))
    × IsCoherentWorld memory memory-IsDatabase w'
unfolding memory-IsDatabase
update_lem_example =
    update_lem memory memory-IsDatabase memory-IsAtomic mem_cache-IsCache no_pens shop
      empty-IsCoherent

-- A request to write the pen.
abbrev pen_request : Request
pen_request = record {
  method = "PUT";
  path = "products" ∷ "1" ∷ [];
  path_id = "1";
  query = λ key. "";
  authorization = "";
  remote_addr = "10.0.0.1:4711";
  body = json (encode_product pen);
  context = empty_context;
}

handle_create_product-Replied_example :
    Replied memory tag_validator memory-IsDatabase 201 IsAddition shop.db.tables
      (handle_create_product memory tag_validator pen_request fresh_response shop)
unfolding memory-IsDatabase
handle_create_product-Replied_example =
    handle_create_product-Replied memory tag_validator memory-IsDatabase memory-IsAtomic
      mem_cache-IsCache pen_request shop empty-IsCoherent

handle_update_product-Replied_example :
    Replied memory tag_validator memory-IsDatabase 200
      (IsReplacement (atoi "1").0)
      shop.db.tables
      (handle_update_product memory tag_validator pen_request fresh_response shop)
unfolding memory-IsDatabase
handle_update_product-Replied_example =
    handle_update_product-Replied memory tag_validator memory-IsDatabase memory-IsAtomic
      mem_cache-IsCache pen_request shop empty-IsCoherent

handle_delete_product-Replied_example :
    Replied memory tag_validator memory-IsDatabase 200
      (IsRemoval (atoi "1").0)
      shop.db.tables
      (handle_delete_product memory tag_validator pen_request fresh_response shop)
unfolding memory-IsDatabase
handle_delete_product-Replied_example =
    handle_delete_product-Replied memory tag_validator memory-IsDatabase memory-IsAtomic
      mem_cache-IsCache pen_request shop empty-IsCoherent

-- A product that is out of stock is refused.
abbrev empty_request : Request
empty_request = record pen_request { body = json (encode_product no_pens) }

handle_create_product_valid_example :
    let p = (unmarshal decode_product empty_request.body zero_product).0 in
    let o = handle_create_product memory tag_validator empty_request fresh_response shop in
    ((p.name ≢ "") × (pos 1 ≤ℤ p.price) × (pos 1 ≤ℤ p.stock))
    ⊎ ((status_of o ≡ some 400) × (state_of o ≡ shop))
handle_create_product_valid_example =
    handle_create_product_valid memory tag_validator tag_validator-IsValidator empty_request shop

handle_get_product_by_id-Shown_example :
    Shown memory tag_validator memory-IsDatabase mem_cache-IsCache pen_request shop
      (handle_get_product_by_id memory tag_validator pen_request fresh_response shop)
    × IsQuiet memory tag_validator memory-IsDatabase mem_cache-IsCache shop
        (handle_get_product_by_id memory tag_validator pen_request fresh_response shop)
handle_get_product_by_id-Shown_example =
    handle_get_product_by_id-Shown memory tag_validator memory-IsDatabase mem_cache-IsCache
      pen_request shop empty-IsCoherent
