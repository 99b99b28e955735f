-- ===== src/Routes/Admin.antt =====
-- Which requests of main.go's routes get through to a handler behind a stack.
use belajar_backend_go_v.Base.{true, ◌≡◌, refl, ◌⊎◌, inl, inr, [], ◌∷◌, ◌++◌, ℕ, String, ltb_ℤ}
use belajar_backend_go_v.Models.{Claims}
use belajar_backend_go_v.Services.{ok, Services, World, Validator}
use belajar_backend_go_v.Http.{Request, ResponseWriter, Outcome, done, Handler, http_error}
use belajar_backend_go_v.Utils.Password.{Bcrypt}
use belajar_backend_go_v.Utils.Jwt.{Jwt, IsJwt, key_func}
use belajar_backend_go_v.Handler.Product.{
  get_all_products, handle_get_product_by_id, handle_create_product, handle_update_product,
  handle_delete_product,
}
use belajar_backend_go_v.Handler.Checkout.{handle_checkout}
use belajar_backend_go_v.Middleware.Auth.{trim_prefix, auth_middleware, admin_middleware}
use belajar_backend_go_v.Middleware.Auth.Access.{auth_middleware-cases, admin_route}
use belajar_backend_go_v.Middleware.Logger.{
  Wrapper, new_wrapper, wrapper_write_header, wrapper_writer, Entry, Logged, logger_middleware,
}
use belajar_backend_go_v.Routes.{
  Route, to_products, to_checkout, to_create, to_product, to_update, to_delete, Call, stack_auth,
  stack_admin, serve, mux, route_path,
}

pub data IsAdminRoute : Route → Type 0 where
  creates : IsAdminRoute to_create
  updates : (id : String) → IsAdminRoute (to_update id)
  deletes : (id : String) → IsAdminRoute (to_delete id)

pub data IsUserRoute : Route → Type 0 where
  lists : IsUserRoute to_products
  shows : (id : String) → IsUserRoute (to_product id)
  buys : IsUserRoute to_checkout

-- The request carries a token of this program that is valid and has not expired.
abbrev pub Holds : Jwt → String → Call → Request → Claims → Type 0
Holds J env c r k =
    (J.parse (key_func env) (trim_prefix r.authorization "Bearer ") c.now ≡ ok (k, true))
    × (ltb_ℤ c.now k.expires_at ≡ true)

module _ {W : Type 0} ⦃writer : ResponseWriter W⦄ where
  -- The request was turned away: nothing changed but the log, which has one more entry.
  abbrev pub TurnedAway : {St : Type 0} → Logged St → Outcome W (Logged St) → Type 0
  TurnedAway st o =
      (w : W) × (e : Entry) × ((e.status ≡ 401) ⊎ (e.status ≡ 403))
      × (o ≡ done w (record st { entries = st.entries ++ e ∷ [] }))

  turned_away :
      {St : Type 0} (c : Call) (h : Handler (Wrapper W) St) (r : Request) (w : W) (st : Logged St)
      (message : String) (code : ℕ)
      → (code ≡ 401) ⊎ (code ≡ 403)
      → let v = new_wrapper (writer.set_header "X-Request-ID" c.request_id w) in
        h r v st.state ≡ done (http_error message code v) st.state
        → TurnedAway st (logger_middleware c.request_id h r w st)
  unfolding logger_middleware new_wrapper wrapper_write_header http_error
  turned_away c h r w st message code which stopped =
      let v =
        http_error message code (new_wrapper (writer.set_header "X-Request-ID" c.request_id w)) in
      let e : Entry = record {
        request_id = c.request_id;
        method = r.method;
        path = r.path;
        status = v.status_code;
        ip = r.remote_addr;
      } in
      (v.inner, e, which, rw (stopped, logger_middleware) refl)

  module _ (J : Jwt) (L : IsJwt J) (env : String) where
    stack_admin_lem :
        {St : Type 0} (c : Call) (h : Handler (Wrapper W) St) (r : Request) (w : W) (st : Logged St)
        → ((k : Claims) × (k.role ≡ "admin") × Holds J env c r k)
          ⊎ TurnedAway st (stack_admin J env c h r w st)
    unfolding stack_admin
    stack_admin_lem c h r w st =
        elim (admin_route J L env c.now h r
          (new_wrapper (writer.set_header "X-Request-ID" c.request_id w)) st.state) [
            | inl (k, admin, parsed, alive, _) ↦ inl (k, admin, (parsed, alive))
            | inr (code, which, message, stopped) ↦ inr (
                turned_away c (auth_middleware J env c.now (admin_middleware h)) r w st message code
                  which stopped)
          ]

    stack_auth_lem :
        {St : Type 0} (c : Call) (h : Handler (Wrapper W) St) (r : Request) (w : W) (st : Logged St)
        → ((k : Claims) × Holds J env c r k) ⊎ TurnedAway st (stack_auth J env c h r w st)
    unfolding stack_auth
    stack_auth_lem c h r w st =
        elim (auth_middleware-cases J L env c.now h r
          (new_wrapper (writer.set_header "X-Request-ID" c.request_id w)) st.state) [
            | inl (k, _, _, parsed, alive, _) ↦ inl (k, (parsed, alive))
            | inr (message, stopped) ↦ inr (
                turned_away c (auth_middleware J env c.now h) r w st message 401 (inl refl) stopped)
          ]

    module _ (S : Services) (V : Validator) (B : Bcrypt)
        (swagger fallback : Handler W (Logged (World S))) where
      serve_admin :
          (c : Call) (route : Route) (r : Request) (w : W) (st : Logged (World S))
          → IsAdminRoute route
          → ((k : Claims) × (k.role ≡ "admin") × Holds J env c r k)
            ⊎ TurnedAway st (serve S V B J env swagger fallback c route r w st)
      unfolding serve
      serve_admin c _ r w st creates = stack_admin_lem c (handle_create_product S V) r w st
      serve_admin c _ r w st (updates id) =
          stack_admin_lem c (handle_update_product S V) (record r { path_id = id }) w st
      serve_admin c _ r w st (deletes id) =
          stack_admin_lem c (handle_delete_product S V) (record r { path_id = id }) w st

      serve_user :
          (c : Call) (route : Route) (r : Request) (w : W) (st : Logged (World S))
          → IsUserRoute route
          → ((k : Claims) × Holds J env c r k)
            ⊎ TurnedAway st (serve S V B J env swagger fallback c route r w st)
      unfolding serve
      serve_user c _ r w st lists = stack_auth_lem c (get_all_products S V) r w st
      serve_user c _ r w st (shows id) =
          stack_auth_lem c (handle_get_product_by_id S V) (record r { path_id = id }) w st
      serve_user c _ r w st buys = stack_auth_lem c (handle_checkout S V) r w st

      -- A request whose method and path create, update or delete a product either carries a valid,
      -- unexpired token of this program with the role "admin", or is turned away with 401 or 403,
      -- logged, and changes nothing else.
      pub mux_admin :
          (c : Call) (r : Request) (w : W) (st : Logged (World S))
          → IsAdminRoute (route_path r.method r.path)
          → ((k : Claims) × (k.role ≡ "admin") × Holds J env c r k)
            ⊎ TurnedAway st (mux S V B J env swagger fallback c r w st)
      unfolding mux
      mux_admin c r w st = serve_admin c (route_path r.method r.path) r w st

      -- A request whose method and path list or show products or buy one either carries a valid,
      -- unexpired token of this program, or is turned away, logged, and changes nothing else.
      pub mux_user :
          (c : Call) (r : Request) (w : W) (st : Logged (World S))
          → IsUserRoute (route_path r.method r.path)
          → ((k : Claims) × Holds J env c r k)
            ⊎ TurnedAway st (mux S V B J env swagger fallback c r w st)
      unfolding mux
      mux_user c r w st = serve_user c (route_path r.method r.path) r w st
