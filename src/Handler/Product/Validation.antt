-- ===== src/Handler/Product/Validation.antt =====
-- What the tags of models/product.go let through the handlers of handler/product_handler.go.
use package.text.Mathlib.TextEquality.{eq_iff}
use belajar_backend_go_v.Base.{
  ◌≡◌, ◌≢◌, refl, ◌⊎◌, inl, inr, true, none, some, pos, ◌≤ℤ◌, arith, Option-cases, Bool-cases,
}
use belajar_backend_go_v.Json.{unmarshal}
use belajar_backend_go_v.Models.{Product, zero_product, product_tags}
use belajar_backend_go_v.Models.Codec.{decode_product}
use belajar_backend_go_v.Services.{Services, World, Validator}
use belajar_backend_go_v.Services.Laws.{IsValidator}
use belajar_backend_go_v.Http.{Request, fresh_response, http_writer, send_status, send_content}
use belajar_backend_go_v.Utils.Response.{response_error}
use belajar_backend_go_v.Handler.Status.{status_of, state_of}
use belajar_backend_go_v.Handler.Product.{create_product, handle_create_product}

product_tags_lem :
    (p : Product) → product_tags p ≡ true → (p.name ≢ "") × (pos 1 ≤ℤ p.price) × (pos 1 ≤ℤ p.stock)
unfolding product_tags
product_tags_lem p h = ground (arith, eq_iff p.name "")

module _ (S : Services) (V : Validator) (L : IsValidator V) where
  create_product_refused :
      (r : Request) (st : World S)
      → let input = unmarshal decode_product r.body zero_product in
        ((input.1 ≡ true) × (V.check_product input.0 ≡ none))
        ⊎ ((status_of (create_product S V r fresh_response st) ≡ some 400)
            × (state_of (create_product S V r fresh_response st) ≡ st))
  unfolding create_product response_error send_status send_content
  create_product_refused r st =
      let input = unmarshal decode_product r.body zero_product in
      elim (Bool-cases input.1) [
        | inr bad ↦ inr (rw (bad, create_product) (refl, refl))
        | inl fine ↦ elim (Option-cases (V.check_product input.0)) [
          | inl right ↦ inl (fine, right)
          | inr (message, wrong) ↦ inr (rw (fine, wrong, create_product) (refl, refl))
        ]
      ]

  pub handle_create_product_valid :
      (r : Request) (st : World S)
      → let p = (unmarshal decode_product r.body zero_product).0 in
        let o = handle_create_product S V r fresh_response st in
        ((p.name ≢ "") × (pos 1 ≤ℤ p.price) × (pos 1 ≤ℤ p.stock))
        ⊎ ((status_of o ≡ some 400) × (state_of o ≡ st))
  unfolding handle_create_product
  handle_create_product_valid r st = elim (create_product_refused r st) [
    | inr refused ↦ inr refused
    | inl (fine, right) ↦
        inl (
          product_tags_lem (unmarshal decode_product r.body zero_product).0 ((L.product _).0 right))
  ]
