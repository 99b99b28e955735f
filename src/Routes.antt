-- ===== src/Routes.antt =====
-- The router of main.go: `http.ServeMux` with the patterns that it is given, and the stacks of
-- middlewares. What a call takes from outside (the request id, the time, the salt) comes as a
-- record. The handler of Swagger and what the mux does with a request that no pattern matches are
-- parameters, and so is the instrumentation of otelhttp.
pub mod Admin
pub mod Once
use package.text.Mathlib.Text.{◌==◌ as str_eq}
use belajar_backend_go_v.Base.{
  ℕ, Bool, true, false, ◌||◌, Option, none, some, List, [], ◌∷◌, String, ℤ, if◌then◌else◌,
}
use belajar_backend_go_v.Services.{Services, World, Validator}
use belajar_backend_go_v.Http.{Request, ResponseWriter, Outcome, done, panic, Handler, plain}
use belajar_backend_go_v.Utils.Password.{Bcrypt}
use belajar_backend_go_v.Utils.Jwt.{Jwt}
use belajar_backend_go_v.Repository.User.{UserRepo, user_repository}
use belajar_backend_go_v.Handler.Product.{
  get_all_products, handle_get_product_by_id, handle_create_product, handle_update_product,
  handle_delete_product,
}
use belajar_backend_go_v.Handler.Checkout.{handle_checkout}
use belajar_backend_go_v.Handler.Auth.{register, login}
use belajar_backend_go_v.Middleware.Auth.{auth_middleware, admin_middleware}
use belajar_backend_go_v.Middleware.Logger.{Wrapper, wrapper_writer, Logged, logger_middleware}
use belajar_backend_go_v.Middleware.RateLimit.{Limiters, Limited, limit}

-- The patterns of the mux; `{id}` matches one segment that is not empty.
pub data Route : Type 0 where
  to_health to_register to_login to_swagger to_products to_checkout to_create : Route
  to_product to_update to_delete : String → Route
  unmatched : Route

-- A pattern with GET matches HEAD too.
abbrev is_get : String → Bool
is_get m = str_eq m "GET" || str_eq m "HEAD"

unfoldable pub route_products : String → Route
route_products m =
    if is_get m then to_products else if str_eq m "POST" then to_create else unmatched

unfoldable pub route_product : String → String → Route
route_product m id =
    if str_eq id ""
    then unmatched
    else if is_get m
    then to_product id
    else if str_eq m "PUT"
    then to_update id
    else if str_eq m "DELETE"
    then to_delete id
    else unmatched

unfoldable pub route_post : String → Route → Route
route_post m route = if str_eq m "POST" then route else unmatched

unfoldable pub route_path : String → List String → Route
unfolding route_products route_product route_post
route_path m (first ∷ []) =
    if str_eq first "health"
    then to_health
    else if str_eq first "register"
    then route_post m to_register
    else if str_eq first "login"
    then route_post m to_login
    else if str_eq first "checkout"
    then route_post m to_checkout
    else if str_eq first "products"
    then route_products m
    else unmatched
route_path m (first ∷ second ∷ rest) =
    if str_eq first "swagger"
    then (if is_get m then to_swagger else unmatched)
    else if str_eq first "products"
    then elim rest [ [] ↦ route_product m second | _ ↦ unmatched ]
    else unmatched
route_path m [] = unmatched

-- What a request takes from outside.
pub record Call : Type 0 where
  pub request_id : String
  pub salt : String
  -- in seconds, for tokens
  pub now : ℤ
  -- in the unit of the limiter
  pub tick : ℕ

module _ {W : Type 0} ⦃rw : ResponseWriter W⦄ where
  unfoldable pub health : {St : Type 0} → Handler W St
  health r w st = done (rw.write (plain "OK") (rw.write_header 200 w)) st

  module _ (J : Jwt) (env : String) {St : Type 0} where
    unfoldable pub stack_logger : Call → Handler (Wrapper W) St → Handler W (Logged St)
    stack_logger c h = logger_middleware c.request_id h

    unfoldable pub stack_auth : Call → Handler (Wrapper W) St → Handler W (Logged St)
    stack_auth c h = logger_middleware c.request_id (auth_middleware J env c.now h)

    unfoldable pub stack_admin : Call → Handler (Wrapper W) St → Handler W (Logged St)
    stack_admin c h =
        logger_middleware c.request_id (auth_middleware J env c.now (admin_middleware h))

module _ {W : Type 0} ⦃rw : ResponseWriter W⦄ (S : Services) where
  -- The handlers of users share the database of the products' repository.
  unfoldable pub on_db : Handler W S.database.Conn → Handler W (World S)
  on_db h r w st = elim (h r w st.db) [
    | done w' db ↦ done w' (record st { db = db })
    | panic db ↦ panic (record st { db = db })
  ]

module _ {W : Type 0} ⦃rw : ResponseWriter W⦄ (S : Services) (V : Validator) (B : Bcrypt) (J : Jwt)
    (env : String) (swagger fallback : Handler W (Logged (World S))) where
  unfoldable pub serve : Call → Route → Handler W (Logged (World S))
  unfolding health stack_logger stack_auth stack_admin on_db user_repository
  serve c to_health r = health r
  serve c to_register r =
      stack_logger J env c (on_db S (register (user_repository S.database) B c.salt)) r
  serve c to_login r =
      stack_logger J env c (on_db S (login (user_repository S.database) B J env c.now)) r
  serve c to_swagger r = swagger r
  serve c to_products r = stack_auth J env c (get_all_products S V) r
  serve c (to_product id) r =
      stack_auth J env c (handle_get_product_by_id S V) (record r { path_id = id })
  serve c to_checkout r = stack_auth J env c (handle_checkout S V) r
  serve c to_create r = stack_admin J env c (handle_create_product S V) r
  serve c (to_update id) r =
      stack_admin J env c (handle_update_product S V) (record r { path_id = id })
  serve c (to_delete id) r =
      stack_admin J env c (handle_delete_product S V) (record r { path_id = id })
  serve c unmatched r = fallback r

  unfoldable pub mux : Call → Handler W (Logged (World S))
  unfolding serve
  mux c r = serve c (route_path r.method r.path) r

  unfoldable pub final_handler :
      (M : Limiters)
      → (Handler W (Logged (World S)) → Handler W (Logged (World S)))
      → Call
      → Handler W (Limited M (Logged (World S)))
  unfolding mux
  final_handler M instrument c = limit M c.tick (instrument (mux c))
