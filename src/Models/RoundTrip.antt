-- ===== src/Models/RoundTrip.antt =====
-- What is stored as JSON is read back as it was.
use belajar_backend_go_v.Base.{◌≡◌, refl, true, List, [], ◌∷◌, arith, IsInt64}
use belajar_backend_go_v.Json.{fits, decode_int, decode_string, decode_elems}
use belajar_backend_go_v.Models.{Product, zero_product, ProductEvent, TaskSendInvoice}
use belajar_backend_go_v.Models.Codec.{
  encode_product, assign_product, decode_product, encode_products, encode_elems, decode_products,
  encode_event, decode_event, encode_task, decode_task,
}

-- The integer fields of a product are `int`s.
pub record IsProduct (p : Product) : Type 0 where
  pub id : IsInt64 p.id
  pub price : IsInt64 p.price
  pub stock : IsInt64 p.stock

abbrev pub AllProducts : List Product → Type 0
AllProducts [] = Unit
AllProducts (p ∷ ps) = IsProduct p × AllProducts ps

pub record IsTask (t : TaskSendInvoice) : Type 0 where
  pub user_id : IsInt64 t.user_id
  pub product_id : IsInt64 t.product_id
  pub quantity : IsInt64 t.quantity
  pub total_price : IsInt64 t.total_price

-- A product that was marshalled is unmarshalled as it was, into whatever variable.
pub decode-encode_product :
    (p q : Product) → IsProduct p → decode_product (encode_product p) q ≡ (p, true)
unfolding decode_product encode_product fits decode_int decode_string
decode-encode_product p q h = ground arith

decode_elems-encode :
    (ps : List Product)
    → AllProducts ps
    → decode_elems assign_product zero_product (encode_elems ps) ≡ (ps, true)
unfolding decode_elems encode_elems decode_product
decode_elems-encode [] h = refl
decode_elems-encode (p ∷ ps) h =
    ground (arith, decode-encode_product p zero_product h.0, decode_elems-encode ps h.1)

-- A list of products in range, the empty one included, which is written `null`, is read back from
-- its JSON, whatever the variable held.
pub decode-encode_products :
    (ps qs : List Product) → AllProducts ps → decode_products (encode_products ps) qs ≡ (ps, true)
unfolding decode_products encode_products
decode-encode_products [] qs h = refl
decode-encode_products (p ∷ ps) qs h = decode_elems-encode (p ∷ ps) h

-- So is an event for the search index.
pub decode-encode_event :
    (e f : ProductEvent) → IsProduct e.product → decode_event (encode_event e) f ≡ (e, true)
unfolding decode_event encode_event fits decode_string
decode-encode_event e f h = ground (arith, decode-encode_product e.product f.product h)

-- So is an invoice task.
pub decode-encode_task :
    (t u : TaskSendInvoice) → IsTask t → decode_task (encode_task t) u ≡ (t, true)
unfolding decode_task encode_task fits decode_int decode_string
decode-encode_task t u h = ground arith
