-- ===== src/Models/Codec.antt =====
-- The JSON of the records, after their `json` tags: `encode_*` is `json.Marshal`, `assign_*` sets
-- the field that a key fits, and `decode_*` reads a whole value.
use belajar_backend_go_v.Base.{Bool, true, List, [], ◌∷◌, String, if◌then◌else◌}
use belajar_backend_go_v.Json.{
  Json, null, num, str, arr, obj, Elems, nil, cons, end, member, fits, decode_int, decode_string,
  decode_struct, decode_slice,
}
use belajar_backend_go_v.Models.{
  Product, zero_product, CheckoutRequest, User, ProductEvent, TaskSendInvoice,
}

-- Writes the decoded part back into the record.
put {ℓ κ} : {A : Type ℓ} {T : Type κ} → A × Bool → (A → T) → T × Bool
put (a, fine) set = (set a, fine)

unfoldable pub encode_product : Product → Json
encode_product p = obj (
    member "id" (num p.id) (
      member "name" (str p.name) (member "price" (num p.price) (member "stock" (num p.stock) end))))

unfoldable pub assign_product : String → Json → Product → Product × Bool
unfolding put
assign_product key v p =
    if fits key "id"
    then put (decode_int v p.id) (λ x. record p { id = x })
    else if fits key "name"
    then put (decode_string v p.name) (λ x. record p { name = x })
    else if fits key "price"
    then put (decode_int v p.price) (λ x. record p { price = x })
    else if fits key "stock"
    then put (decode_int v p.stock) (λ x. record p { stock = x })
    else (p, true)

unfoldable pub decode_product : Json → Product → Product × Bool
unfolding decode_struct assign_product
decode_product = decode_struct assign_product

unfoldable pub encode_elems : List Product → Elems
encode_elems [] = nil
encode_elems (p ∷ ps) = cons (encode_product p) (encode_elems ps)

-- A `[]Product`; the slices of the program that hold nothing are nil, and nil is written `null`.
unfoldable pub encode_products : List Product → Json
unfolding encode_elems
encode_products [] = null
encode_products (p ∷ ps) = arr (encode_elems (p ∷ ps))

unfoldable pub decode_products : Json → List Product → List Product × Bool
unfolding decode_slice assign_product
decode_products j _ = decode_slice assign_product zero_product j

unfoldable pub assign_checkout : String → Json → CheckoutRequest → CheckoutRequest × Bool
unfolding put
assign_checkout key v r =
    if fits key "product_id"
    then put (decode_int v r.product_id) (λ x. record r { product_id = x })
    else if fits key "quantity"
    then put (decode_int v r.quantity) (λ x. record r { quantity = x })
    else (r, true)

unfoldable pub decode_checkout : Json → CheckoutRequest → CheckoutRequest × Bool
unfolding decode_struct assign_checkout
decode_checkout = decode_struct assign_checkout

unfoldable pub assign_user : String → Json → User → User × Bool
unfolding put
assign_user key v u =
    if fits key "id"
    then put (decode_int v u.id) (λ x. record u { id = x })
    else if fits key "email"
    then put (decode_string v u.email) (λ x. record u { email = x })
    else if fits key "password"
    then put (decode_string v u.password) (λ x. record u { password = x })
    else if fits key "role"
    then put (decode_string v u.role) (λ x. record u { role = x })
    else (u, true)

unfoldable pub decode_user : Json → User → User × Bool
unfolding decode_struct assign_user
decode_user = decode_struct assign_user

unfoldable pub encode_event : ProductEvent → Json
encode_event e =
    obj (member "action" (str e.action) (member "payload" (encode_product e.product) end))

unfoldable pub assign_event : String → Json → ProductEvent → ProductEvent × Bool
unfolding put decode_product
assign_event key v e =
    if fits key "action"
    then put (decode_string v e.action) (λ x. record e { action = x })
    else if fits key "payload"
    then put (decode_product v e.product) (λ x. record e { product = x })
    else (e, true)

unfoldable pub decode_event : Json → ProductEvent → ProductEvent × Bool
unfolding decode_struct assign_event
decode_event = decode_struct assign_event

unfoldable pub encode_task : TaskSendInvoice → Json
encode_task t = obj (
    member "user_id" (num t.user_id) (
      member "email" (str t.email) (
        member "product_id" (num t.product_id)
          (member "quantity" (num t.quantity) (member "total_price" (num t.total_price) end)))))

unfoldable pub assign_task : String → Json → TaskSendInvoice → TaskSendInvoice × Bool
unfolding put
assign_task key v t =
    if fits key "user_id"
    then put (decode_int v t.user_id) (λ x. record t { user_id = x })
    else if fits key "email"
    then put (decode_string v t.email) (λ x. record t { email = x })
    else if fits key "product_id"
    then put (decode_int v t.product_id) (λ x. record t { product_id = x })
    else if fits key "quantity"
    then put (decode_int v t.quantity) (λ x. record t { quantity = x })
    else if fits key "total_price"
    then put (decode_int v t.total_price) (λ x. record t { total_price = x })
    else (t, true)

unfoldable pub decode_task : Json → TaskSendInvoice → TaskSendInvoice × Bool
unfolding decode_struct assign_task
decode_task = decode_struct assign_task
