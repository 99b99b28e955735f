-- ===== src/Handler/Checkout.antt =====
-- `HandleCheckout` of handler/product_handler.go.
pub mod Replies
pub mod Runs
use belajar_backend_go_v.Base.{Option, none, some, String, ℤ, if◌then◌else◌}
use belajar_backend_go_v.Json.{unmarshal}
use belajar_backend_go_v.Models.{CheckoutRequest, zero_checkout}
use belajar_backend_go_v.Models.Codec.{decode_checkout}
use belajar_backend_go_v.Services.{error_text, Services, World, Validator}
use belajar_backend_go_v.Http.{Request, ResponseWriter, Outcome, done, Handler}
use belajar_backend_go_v.Utils.Response.{response_json, response_error}
use belajar_backend_go_v.Repository.Checkout.{checkout}

module _ {W : Type 0} ⦃rw : ResponseWriter W⦄ (S : Services) (V : Validator) where
  -- The call of the repository and its answer.
  unfoldable pub buy : ℤ → String → CheckoutRequest → W → World S → Outcome W (World S)
  unfolding error_text
  buy user_id user_email req w st =
      let (failed, st') = checkout S user_id user_email req st in
      elim failed [
        | some e ↦ done (response_error 400 (error_text e) w) st'
        | none ↦
            done (response_json 200 "Pembelian berhasil, invoice akan dikirim via email" none w) st'
      ]

  unfoldable pub checkout_as : ℤ → String → Handler W (World S)
  unfolding buy
  checkout_as user_id user_email r w st =
      let (req, decoded) = unmarshal decode_checkout r.body zero_checkout in
      if decoded
      then elim (V.check_checkout req) [
        | some message ↦ done (response_error 400 message w) st
        | none ↦ buy user_id user_email req w st
      ]
      else done (response_error 400 "Format input salah!" w) st

  unfoldable pub handle_checkout : Handler W (World S)
  unfolding checkout_as
  handle_checkout r w st = elim r.context.user_id [
    | none ↦ done (response_error 401 "User ID tidak valid!" w) st
    | some user_id ↦
        checkout_as user_id (elim r.context.email [ some email ↦ email | none ↦ "" ]) r w st
  ]
