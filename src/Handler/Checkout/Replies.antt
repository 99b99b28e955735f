-- ===== src/Handler/Checkout/Replies.antt =====
-- `HandleCheckout` of handler/product_handler.go in front of the repository's `Checkout`.
use belajar_backend_go_v.Base.{
  ◌≡◌, refl, ◌⊎◌, inl, inr, none, some, ℤ, String, Option-cases, Bool-cases,
}
use belajar_backend_go_v.Json.{unmarshal}
use belajar_backend_go_v.Models.{CheckoutRequest, zero_checkout}
use belajar_backend_go_v.Models.Codec.{decode_checkout}
use belajar_backend_go_v.Services.{Services, World, Validator}
use belajar_backend_go_v.Http.{Request, fresh_response, http_writer, send_status, send_content}
use belajar_backend_go_v.Utils.Response.{response_json, response_error}
use belajar_backend_go_v.Repository.Contract.{IsDatabase, IsAtomic}
use belajar_backend_go_v.Repository.Checkout.{checkout}
use belajar_backend_go_v.Repository.Checkout.Atomic.{Sold, checkout-Sold, checkout_failed}
use belajar_backend_go_v.Handler.Status.{status_of, state_of}
use belajar_backend_go_v.Handler.Checkout.{buy, checkout_as, handle_checkout}

module _ (S : Services) (V : Validator) (L : IsDatabase S) (A : IsAtomic S L) where
  -- A sale to that user of what the body asks for, and the validator passes.
  abbrev pub Bought : Request → ℤ → World S → World S → Type 0
  Bought r user_id st st' =
      let req : CheckoutRequest = (unmarshal decode_checkout r.body zero_checkout).0 in
      (r.context.user_id ≡ some user_id)
      × (V.check_checkout req ≡ none)
      × (total : ℤ) × Sold user_id req total (L.tables st.db) (L.tables st'.db)

  -- A checkout is answered with 200 where the sale has been made, to the user of the token and of
  -- what the validator passes; else it is answered with 400, or 401 where there is no user, and no
  -- table has changed and no task has been sent.
  pub handle_checkout_lem :
      (r : Request) (st : World S)
      → let o = handle_checkout S V r fresh_response st in
        ((status_of o ≡ some 200) × (user_id : ℤ) × Bought r user_id st (state_of o))
        ⊎ (((status_of o ≡ some 400) ⊎ ((status_of o ≡ some 401) × (r.context.user_id ≡ none)))
            × (L.tables (state_of o).db ≡ L.tables st.db)
            × ((state_of o).log ≡ st.log))
  unfolding handle_checkout checkout_as buy response_json response_error send_status send_content
  handle_checkout_lem r st =
      let email : String = elim r.context.email [ some email ↦ email | none ↦ "" ] in
      let req : CheckoutRequest = (unmarshal decode_checkout r.body zero_checkout).0 in
      elim (Option-cases r.context.user_id) [
        | inl nobody ↦ rw (nobody, handle_checkout) (inr (inr (refl, refl), refl, refl))
        | inr (user_id, known) ↦
            elim (Bool-cases (unmarshal decode_checkout r.body zero_checkout).1) [
              | inr bad ↦ rw (known, bad, handle_checkout) (inr (inl refl, refl, refl))
              | inl fine ↦ elim (Option-cases (V.check_checkout req)) [
                | inr (message, wrong) ↦
                    rw (known, fine, wrong, handle_checkout) (inr (inl refl, refl, refl))
                | inl right ↦ elim (Option-cases (checkout S user_id email req st).0) [
                  | inl sold ↦
                      let (total, sale, _, _, _) = checkout-Sold S L user_id email req st sold in
                      rw (known, fine, right, sold, handle_checkout, buy)
                        (inl (refl, user_id, (refl, refl, total, sale)))
                  | inr (e, failed) ↦
                      let (same, log, _, _) = checkout_failed S L A user_id email req st e failed in
                      rw (known, fine, right, failed, handle_checkout, buy)
                        (inr (inl refl, same, log))
                ]
              ]
            ]
      ]
