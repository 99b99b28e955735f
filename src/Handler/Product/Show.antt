-- ===== src/Handler/Product/Show.antt =====
-- `HandleGetProductByID` of handler/product_handler.go.
use belajar_backend_go_v.Base.{
  ◌≡◌, refl, ◌⊎◌, inl, inr, none, some, [], ◌∷◌, ℤ, IsInt64, arith, Option-cases,
}
use belajar_backend_go_v.Strconv.{NumError, atoi}
use belajar_backend_go_v.Strconv.Laws.{atoi-IsInt64}
use belajar_backend_go_v.Models.{Product}
use belajar_backend_go_v.Models.Codec.{encode_product}
use belajar_backend_go_v.Services.{Services, World, Validator, Result-cases}
use belajar_backend_go_v.Services.Laws.{IsCache}
use belajar_backend_go_v.Http.{
  Request, Response, fresh_response, http_writer, Outcome, done, json_content, send_status,
  send_content,
}
use belajar_backend_go_v.Utils.Response.{encode_response, response_json, response_error}
use belajar_backend_go_v.Repository.Product.{get_by_id}
use belajar_backend_go_v.Repository.Product.Coherence.{IsCoherentWorld}
use belajar_backend_go_v.Repository.Product.Reads.{get_by_id-IsCoherent}
use belajar_backend_go_v.Repository.Contract.{IsDatabase}
use belajar_backend_go_v.Handler.Status.{status_of, state_of, content_of}
use belajar_backend_go_v.Handler.Product.{parse_id, get_product_by_id, handle_get_product_by_id}

module _ (S : Services) (V : Validator) (L : IsDatabase S) (C : IsCache S.cache) where
  -- A product that was read is shown, or its lookup failed.
  abbrev Found : ℤ → World S → Outcome Response (World S) → Type 0
  Found id st o =
      ((p : Product) × ((L.tables st.db).product id ≡ some p)
        × (status_of o ≡ some 200)
        × (content_of o
            ≡ json_content (
                encode_response (record {
                  status = "success";
                  message = "Detail produk";
                  payload = some (encode_product p);
                }))
              ∷ []))
      ⊎ (status_of o ≡ some 404)

  -- The request is read; nothing changes but the cache.
  abbrev pub Shown : Request → World S → Outcome Response (World S) → Type 0
  Shown r st o =
      (((atoi r.path_id).1 ≡ none) × Found (atoi r.path_id).0 st o)
      ⊎ (((e : NumError) × ((atoi r.path_id).1 ≡ some e)) × (status_of o ≡ some 400))

  abbrev pub IsQuiet : World S → Outcome Response (World S) → Type 0
  IsQuiet st o = (L.tables (state_of o).db ≡ L.tables st.db) × IsCoherentWorld S L (state_of o)

  get_product_by_id-Shown :
      (id : ℤ) (st : World S)
      → IsCoherentWorld S L st
      → IsInt64 id
      → Found id st (get_product_by_id S V id fresh_response st)
        × IsQuiet st (get_product_by_id S V id fresh_response st)
  unfolding get_product_by_id response_json response_error send_status send_content
  get_product_by_id-Shown id st h range =
      let (found, _, same, coherent) = get_by_id-IsCoherent S L C id st range h in
      elim (Result-cases (get_by_id S id st).0) [
        | inl (p, read) ↦
            rw (read, get_product_by_id) (inl (p, found p read, refl, refl), (same, coherent))
        | inr (e, failed) ↦ rw (failed, get_product_by_id) (inr refl, (same, coherent))
      ]

  handle_get_product_by_id_fine :
      (r : Request) (st : World S)
      → (atoi r.path_id).1 ≡ none
      → handle_get_product_by_id S V r fresh_response st
        ≡ get_product_by_id S V (atoi r.path_id).0 fresh_response st
  unfolding handle_get_product_by_id parse_id
  handle_get_product_by_id_fine r st fine = ground arith

  handle_get_product_by_id_bad :
      (r : Request) (e : NumError) (st : World S)
      → (atoi r.path_id).1 ≡ some e
      → handle_get_product_by_id S V r fresh_response st
        ≡ done (response_error 400 "Invalid Product ID" fresh_response) st
  unfolding handle_get_product_by_id parse_id
  handle_get_product_by_id_bad r e st bad = ground arith

  -- Where cache and table agree, a request for a product is answered with 200 and the row of the
  -- path's id, or with 404, if that id is a number, and with 400 otherwise; no table changes, and
  -- cache and table agree afterwards.
  pub handle_get_product_by_id-Shown :
      (r : Request) (st : World S)
      → IsCoherentWorld S L st
      → Shown r st (handle_get_product_by_id S V r fresh_response st)
        × IsQuiet st (handle_get_product_by_id S V r fresh_response st)
  unfolding handle_get_product_by_id response_error send_status send_content
  handle_get_product_by_id-Shown r st h = elim (Option-cases (atoi r.path_id).1) [
    | inl fine ↦
        let (answer, quiet) =
          get_product_by_id-Shown (atoi r.path_id).0 st h (atoi-IsInt64 r.path_id) in
        rw (handle_get_product_by_id_fine r st fine) (inl (fine, answer), quiet)
    | inr (e, bad) ↦ rw (handle_get_product_by_id_bad r e st bad) (inr ((e, bad), refl), (refl, h))
  ]
