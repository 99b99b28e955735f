-- ===== src/Routes/Once.antt =====
-- Every request to a route of main.go's own gets one answer, whatever the services do.
use belajar_backend_go_v.Base.{◌≡◌, ◌≢◌, refl, inl, inr, none, String, length}
use belajar_backend_go_v.Services.{Services, World, Validator}
use belajar_backend_go_v.Http.{
  Request, Response, fresh_response, http_writer, ResponseWriter, Outcome-cases, done, panic,
  Handler, plain,
}
use belajar_backend_go_v.Http.Once.{Writes, AnswersOnce, http-Writes, wrapper-Writes, write-Once}
use belajar_backend_go_v.Utils.Password.{Bcrypt}
use belajar_backend_go_v.Utils.Jwt.{Jwt, IsJwt}
use belajar_backend_go_v.Repository.User.{user_repository}
use belajar_backend_go_v.Handler.Once.{
  get_all_products-AnswersOnce, handle_create_product-AnswersOnce,
  handle_get_product_by_id-AnswersOnce, handle_update_product-AnswersOnce,
  handle_delete_product-AnswersOnce, handle_checkout-AnswersOnce, register-AnswersOnce,
  login-AnswersOnce,
}
use belajar_backend_go_v.Middleware.Logger.{Wrapper, wrapper_writer, Logged}
use belajar_backend_go_v.Middleware.RateLimit.{Limiters, Limited, limit}
use belajar_backend_go_v.Middleware.Once.{
  HandlesOnce, auth_middleware-HandlesOnce, admin_middleware-HandlesOnce,
  logger_middleware-HandlesOnce, limit-HandlesOnce,
}
use belajar_backend_go_v.Routes.{
  Route, to_health, to_register, to_login, to_swagger, to_products, to_checkout, to_create,
  to_product, to_update, to_delete, unmatched, Call, stack_logger, stack_auth, stack_admin, on_db,
  health, serve, mux, final_handler, route_path,
}

-- A route that the program serves itself.
abbrev pub IsOwn : Route → Type 0
IsOwn to_swagger = ⊥
IsOwn unmatched = ⊥
IsOwn _ = Unit

module _ {W : Type 0} ⦃writer : ResponseWriter W⦄ (B : Writes writer) where
  on_db-HandlesOnce :
      (S : Services) (h : Handler W S.database.Conn) → HandlesOnce B h → HandlesOnce B (on_db S h)
  unfolding on_db
  on_db-HandlesOnce S h once r w st = elim (Outcome-cases (h r w st.db)) [
    | inl (w', db, e) ↦
        rw (e, on_db)
          (let answered : AnswersOnce B w (done w' db) = rw e at (once r w st.db) in answered)
    | inr (db, e) ↦ absurd (let no : AnswersOnce B w (panic db) = rw e at (once r w st.db) in no)
  ]

  health-HandlesOnce : {St : Type 0} → HandlesOnce {St = St} B health
  unfolding health
  health-HandlesOnce r w st = write-Once B 200 (plain "OK") w w refl

  module _ (J : Jwt) (L : IsJwt J) (env : String) {St : Type 0} (c : Call)
      (h : Handler (Wrapper W) St) (once : HandlesOnce (wrapper-Writes B) h) where
    stack_logger-HandlesOnce : HandlesOnce B (stack_logger J env c h)
    unfolding stack_logger
    stack_logger-HandlesOnce = logger_middleware-HandlesOnce B c.request_id h once

    stack_auth-HandlesOnce : HandlesOnce B (stack_auth J env c h)
    unfolding stack_auth
    stack_auth-HandlesOnce =
        logger_middleware-HandlesOnce B c.request_id _
          (auth_middleware-HandlesOnce (wrapper-Writes B) J L env c.now h once)

    stack_admin-HandlesOnce : HandlesOnce B (stack_admin J env c h)
    unfolding stack_admin
    stack_admin-HandlesOnce = logger_middleware-HandlesOnce B c.request_id _ (
        auth_middleware-HandlesOnce (wrapper-Writes B) J L env c.now _
          (admin_middleware-HandlesOnce (wrapper-Writes B) h once))

module _ {W : Type 0} ⦃writer : ResponseWriter W⦄ (B : Writes writer) (S : Services) (V : Validator)
    (H : Bcrypt) (J : Jwt) (L : IsJwt J) (env : String)
    (swagger fallback : Handler W (Logged (World S))) where
  serve-AnswersOnce :
      (c : Call) (route : Route) (r : Request) (w : W) (st : Logged (World S))
      → IsOwn route
      → AnswersOnce B w (serve S V H J env swagger fallback c route r w st)
  unfolding serve
  serve-AnswersOnce c to_health r w st own = health-HandlesOnce B r w st
  serve-AnswersOnce c to_register r w st own =
      stack_logger-HandlesOnce B J L env c _
        (on_db-HandlesOnce (wrapper-Writes B) S _
          (register-AnswersOnce (wrapper-Writes B) (user_repository S.database) H c.salt))
        r w st
  serve-AnswersOnce c to_login r w st own =
      stack_logger-HandlesOnce B J L env c _
        (on_db-HandlesOnce (wrapper-Writes B) S _
          (login-AnswersOnce (wrapper-Writes B) (user_repository S.database) H J env c.now))
        r w st
  serve-AnswersOnce c to_swagger r w st own = absurd own
  serve-AnswersOnce c to_products r w st own =
      stack_auth-HandlesOnce B J L env c _ (get_all_products-AnswersOnce (wrapper-Writes B) S V) r w
        st
  serve-AnswersOnce c (to_product id) r w st own =
      stack_auth-HandlesOnce B J L env c _
        (handle_get_product_by_id-AnswersOnce (wrapper-Writes B) S V) (record r { path_id = id }) w
        st
  serve-AnswersOnce c to_checkout r w st own =
      stack_auth-HandlesOnce B J L env c _ (handle_checkout-AnswersOnce (wrapper-Writes B) S V) r w
        st
  serve-AnswersOnce c to_create r w st own =
      stack_admin-HandlesOnce B J L env c _
        (handle_create_product-AnswersOnce (wrapper-Writes B) S V) r w st
  serve-AnswersOnce c (to_update id) r w st own =
      stack_admin-HandlesOnce B J L env c _
        (handle_update_product-AnswersOnce (wrapper-Writes B) S V) (record r { path_id = id }) w st
  serve-AnswersOnce c (to_delete id) r w st own =
      stack_admin-HandlesOnce B J L env c _
        (handle_delete_product-AnswersOnce (wrapper-Writes B) S V) (record r { path_id = id }) w st
  serve-AnswersOnce c unmatched r w st own = absurd own

module _ (S : Services) (V : Validator) (H : Bcrypt) (J : Jwt) (L : IsJwt J) (env : String)
    (swagger fallback : Handler Response (Logged (World S))) (M : Limiters) where
  -- Where the instrumentation hands a request on as it is, a request that the mux routes to a
  -- handler of the program is answered without a panic, with a status and one body, whatever
  -- database, cache, broker, circuit and limiter do.
  pub final_handler-AnswersOnce :
      (instrument : Handler Response (Logged (World S)) → Handler Response (Logged (World S)))
      → ((h : Handler Response (Logged (World S))) → instrument h ≡ h)
      → (c : Call) (r : Request) (st : Limited M (Logged (World S)))
      → IsOwn (route_path r.method r.path)
      → (w : Response) × (st' : Limited M (Logged (World S))) × (final_handler S V H J env swagger
            fallback M instrument c r fresh_response st
          ≡ done w st')
        × (w.sent ≢ none)
        × (length w.content ≡ 1)
  unfolding final_handler mux http-Writes
  final_handler-AnswersOnce instrument through c r st own =
      let run =
        limit M c.tick (instrument (mux S V H J env swagger fallback c)) r fresh_response st in
      let served =
        serve-AnswersOnce http-Writes S V H J L env swagger fallback c (route_path r.method r.path)
          r fresh_response st.state own in
      let answered : AnswersOnce http-Writes fresh_response run =
        limit-HandlesOnce http-Writes M c.tick (instrument (mux S V H J env swagger fallback c)) r
          fresh_response st (rw (through (mux S V H J env swagger fallback c)) served) in
      elim (Outcome-cases run) [
        | inl (w, st', e) ↦
            let (one, sent) : AnswersOnce http-Writes fresh_response (done w st') =
              rw e at answered in
            (w, st', e, (λ x. cc (x, sent.1)), one)
        | inr (st', e) ↦
            absurd
              (let no : AnswersOnce http-Writes fresh_response (panic st') = rw e at answered in no)
      ]
