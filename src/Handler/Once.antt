-- ===== src/Handler/Once.antt =====
-- Each handler of handler/ writes one body on every branch.
use belajar_backend_go_v.Base.{String, ℤ, arith}
use belajar_backend_go_v.Models.{Product, CheckoutRequest, User}
use belajar_backend_go_v.Services.{Services, World, Validator}
use belajar_backend_go_v.Http.{Request, ResponseWriter}
use belajar_backend_go_v.Http.Once.{
  Writes, AnswersOnce, Once, response_json-Once, response_error-Once,
}
use belajar_backend_go_v.Utils.Response.{response_error}
use belajar_backend_go_v.Utils.Password.{Bcrypt}
use belajar_backend_go_v.Utils.Jwt.{Jwt}
use belajar_backend_go_v.Repository.User.{UserRepo}
use belajar_backend_go_v.Handler.Product.{
  get_all_products, get_product_by_id, create_product, update_product_by_id, apply_update,
  delete_product_by_id, handle_create_product, handle_update_product, handle_delete_product,
  handle_get_product_by_id, parse_id,
}
use belajar_backend_go_v.Handler.Checkout.{buy, checkout_as, handle_checkout}
use belajar_backend_go_v.Handler.Auth.{register, save_user, login, log_in}

ruleset bodies = (arith, response_json-Once, response_error-Once)

module _ {W : Type 0} ⦃rw : ResponseWriter W⦄ (B : Writes rw) (S : Services) (V : Validator) where
  -- An answer behind one more header.
  busy-Once :
      (message : String) (w : W)
      → Once B w (response_error 503 message (rw.set_header "Retry-After" "30" w))
  busy-Once message w =
      let (one, sent) = response_error-Once B 503 message (rw.set_header "Retry-After" "30" w) in
      (omega (arith, one, B.bodies-set_header "Retry-After" "30" w), sent)

  pub get_all_products-AnswersOnce :
      (r : Request) (w : W) (st : World S) → AnswersOnce B w (get_all_products S V r w st)
  unfolding get_all_products
  get_all_products-AnswersOnce r w st = grind (bodies, busy-Once)

  pub handle_create_product-AnswersOnce :
      (r : Request) (w : W) (st : World S) → AnswersOnce B w (handle_create_product S V r w st)
  unfolding handle_create_product create_product
  handle_create_product-AnswersOnce r w st = grind bodies

  pub handle_get_product_by_id-AnswersOnce :
      (r : Request) (w : W) (st : World S) → AnswersOnce B w (handle_get_product_by_id S V r w st)
  unfolding handle_get_product_by_id get_product_by_id parse_id
  handle_get_product_by_id-AnswersOnce r w st = grind bodies

  apply_update-AnswersOnce :
      (p : Product) (w : W) (st : World S) → AnswersOnce B w (apply_update S V p w st)
  unfolding apply_update
  apply_update-AnswersOnce p w st = grind bodies

  update_product_by_id-AnswersOnce :
      (r : Request) (w : W) (st : World S) (id : ℤ)
      → AnswersOnce B w (update_product_by_id S V r w st id)
  unfolding update_product_by_id
  update_product_by_id-AnswersOnce r w st id = grind (bodies, apply_update-AnswersOnce)

  pub handle_update_product-AnswersOnce :
      (r : Request) (w : W) (st : World S) → AnswersOnce B w (handle_update_product S V r w st)
  unfolding handle_update_product parse_id
  handle_update_product-AnswersOnce r w st = grind (bodies, update_product_by_id-AnswersOnce)

  delete_product_by_id-AnswersOnce :
      (id : ℤ) (w : W) (st : World S) → AnswersOnce B w (delete_product_by_id S V id w st)
  unfolding delete_product_by_id
  delete_product_by_id-AnswersOnce id w st = grind bodies

  pub handle_delete_product-AnswersOnce :
      (r : Request) (w : W) (st : World S) → AnswersOnce B w (handle_delete_product S V r w st)
  unfolding handle_delete_product parse_id
  handle_delete_product-AnswersOnce r w st = grind (bodies, delete_product_by_id-AnswersOnce)

  buy-AnswersOnce :
      (user_id : ℤ) (email : String) (req : CheckoutRequest) (w : W) (st : World S)
      → AnswersOnce B w (buy S V user_id email req w st)
  unfolding buy
  buy-AnswersOnce user_id email req w st = grind bodies

  checkout_as-AnswersOnce :
      (user_id : ℤ) (email : String) (r : Request) (w : W) (st : World S)
      → AnswersOnce B w (checkout_as S V user_id email r w st)
  unfolding checkout_as
  checkout_as-AnswersOnce user_id email r w st = grind (bodies, buy-AnswersOnce)

  pub handle_checkout-AnswersOnce :
      (r : Request) (w : W) (st : World S) → AnswersOnce B w (handle_checkout S V r w st)
  unfolding handle_checkout
  handle_checkout-AnswersOnce r w st = grind (bodies, checkout_as-AnswersOnce)

module _ {W : Type 0} ⦃rw : ResponseWriter W⦄ (B : Writes rw) (R : UserRepo) (H : Bcrypt) where
  save_user-AnswersOnce : (u : User) (w : W) (st : R.State) → AnswersOnce B w (save_user R H u w st)
  unfolding save_user
  save_user-AnswersOnce u w st = grind bodies

  pub register-AnswersOnce :
      (salt : String) (r : Request) (w : W) (st : R.State)
      → AnswersOnce B w (register R H salt r w st)
  unfolding register
  register-AnswersOnce salt r w st = grind (bodies, save_user-AnswersOnce)

  log_in-AnswersOnce :
      (J : Jwt) (env : String) (now : ℤ) (password : String) (user : User) (w : W) (st : R.State)
      → AnswersOnce B w (log_in R H J env now password user w st)
  unfolding log_in
  log_in-AnswersOnce J env now password user w st = grind bodies

  pub login-AnswersOnce :
      (J : Jwt) (env : String) (now : ℤ) (r : Request) (w : W) (st : R.State)
      → AnswersOnce B w (login R H J env now r w st)
  unfolding login
  login-AnswersOnce J env now r w st = grind (bodies, log_in-AnswersOnce)
