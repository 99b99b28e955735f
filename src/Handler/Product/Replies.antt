-- ===== src/Handler/Product/Replies.antt =====
-- handler/product_handler.go in front of repository/product_repo.go: what the status of a reply
-- says about the tables.
use belajar_backend_go_v.Base.{◌≡◌, refl, inl, inr, none, some, arith, Option-cases, Bool-cases}
use belajar_backend_go_v.Strconv.{NumError, atoi}
use belajar_backend_go_v.Strconv.Laws.{atoi-IsInt64}
use belajar_backend_go_v.Json.{unmarshal}
use belajar_backend_go_v.Models.{Product, zero_product}
use belajar_backend_go_v.Models.Codec.{decode_product}
use belajar_backend_go_v.Services.{Services, World, Validator, Result-cases}
use belajar_backend_go_v.Services.Laws.{IsCache}
use belajar_backend_go_v.Http.{
  Request, fresh_response, http_writer, done, send_status, send_content,
}
use belajar_backend_go_v.Utils.Response.{response_json, response_error}
use belajar_backend_go_v.Repository.Product.{create}
use belajar_backend_go_v.Repository.Product.Coherence.{IsCoherentWorld}
use belajar_backend_go_v.Repository.Product.Writes.{create-IsCoherent}
use belajar_backend_go_v.Repository.Contract.{IsDatabase, IsAtomic}
use belajar_backend_go_v.Handler.Product.{
  parse_id, create_product, update_product_by_id, delete_product_by_id, handle_create_product,
  handle_update_product, handle_delete_product,
}
use belajar_backend_go_v.Handler.Product.Changes.{
  IsAddition, IsReplacement, IsRemoval, Replied, update_product_by_id-Replied,
  delete_product_by_id-Replied,
}

module _ (S : Services) (V : Validator) (L : IsDatabase S) where
  handle_update_product_fine :
      (r : Request) (st : World S)
      → (atoi r.path_id).1 ≡ none
      → handle_update_product S V r fresh_response st
        ≡ update_product_by_id S V r fresh_response st (atoi r.path_id).0
  unfolding handle_update_product parse_id
  handle_update_product_fine r st fine = ground arith

  handle_update_product_bad :
      (r : Request) (e : NumError) (st : World S)
      → (atoi r.path_id).1 ≡ some e
      → handle_update_product S V r fresh_response st
        ≡ done (response_error 400 "Invalid Product ID" fresh_response) st
  unfolding handle_update_product parse_id
  handle_update_product_bad r e st bad = ground arith

  handle_delete_product_fine :
      (r : Request) (st : World S)
      → (atoi r.path_id).1 ≡ none
      → handle_delete_product S V r fresh_response st
        ≡ delete_product_by_id S V (atoi r.path_id).0 fresh_response st
  unfolding handle_delete_product parse_id
  handle_delete_product_fine r st fine = ground arith

  handle_delete_product_bad :
      (r : Request) (e : NumError) (st : World S)
      → (atoi r.path_id).1 ≡ some e
      → handle_delete_product S V r fresh_response st
        ≡ done (response_error 400 "Invalid Product ID" fresh_response) st
  unfolding handle_delete_product parse_id
  handle_delete_product_bad r e st bad = ground arith

  module _ (A : IsAtomic S L) (C : IsCache S.cache) where
    pub handle_create_product-Replied :
        (r : Request) (st : World S)
        → IsCoherentWorld S L st
        → Replied S V L 201 IsAddition
            (L.tables st.db)
            (handle_create_product S V r fresh_response st)
    unfolding handle_create_product create_product response_json response_error send_status
        send_content
    handle_create_product-Replied r st h =
        let p : Product = (unmarshal decode_product r.body zero_product).0 in
        elim (Bool-cases (unmarshal decode_product r.body zero_product).1) [
          | inr bad ↦ rw (bad, create_product) (inr (inl refl, refl), h)
          | inl fine ↦ elim (Option-cases (V.check_product p)) [
            | inr (message, wrong) ↦ rw (fine, wrong, create_product) (inr (inl refl, refl), h)
            | inl right ↦
                let (added, same, coherent) = create-IsCoherent S L A C p st h in
                elim (Result-cases (create S p st).0) [
                  | inl (q, made) ↦
                      let (_, free, changed) = added q made in
                      rw (fine, right, made, create_product)
                        (inl (refl, (q, free, changed)), coherent)
                  | inr (e, failed) ↦
                      rw (fine, right, failed, create_product)
                        (inr (inr (inr refl), same e failed), coherent)
                ]
          ]
        ]

    pub handle_update_product-Replied :
        (r : Request) (st : World S)
        → IsCoherentWorld S L st
        → Replied S V L 200
            (IsReplacement (atoi r.path_id).0)
            (L.tables st.db)
            (handle_update_product S V r fresh_response st)
    unfolding handle_update_product response_error send_status send_content
    handle_update_product-Replied r st h = elim (Option-cases (atoi r.path_id).1) [
      | inl fine ↦ rw (handle_update_product_fine r st fine) (
          update_product_by_id-Replied S V L A C r st (atoi r.path_id).0 (atoi-IsInt64 r.path_id) h)
      | inr (e, bad) ↦ rw (handle_update_product_bad r e st bad) (inr (inl refl, refl), h)
    ]

    pub handle_delete_product-Replied :
        (r : Request) (st : World S)
        → IsCoherentWorld S L st
        → Replied S V L 200
            (IsRemoval (atoi r.path_id).0)
            (L.tables st.db)
            (handle_delete_product S V r fresh_response st)
    unfolding handle_delete_product response_error send_status send_content
    handle_delete_product-Replied r st h = elim (Option-cases (atoi r.path_id).1) [
      | inl fine ↦
          rw (handle_delete_product_fine r st fine) (
            delete_product_by_id-Replied S V L A C st (atoi r.path_id).0 (atoi-IsInt64 r.path_id) h)
      | inr (e, bad) ↦ rw (handle_delete_product_bad r e st bad) (inr (inl refl, refl), h)
    ]
