-- ===== src/Tests/Access.antt =====
-- The guarded routes, with one token.
use belajar_backend_go_v.Base.{◌≡◌, ◌⊎◌, [], ◌∷◌, pos}
use belajar_backend_go_v.Json.{json, obj, member, str, end}
use belajar_backend_go_v.Models.{Claims}
use belajar_backend_go_v.Services.{World}
use belajar_backend_go_v.Http.{
  Request, Response, fresh_response, http_writer, empty_context, done, Handler, http_error,
}
use belajar_backend_go_v.Repository.Memory.{memory}
use belajar_backend_go_v.Middleware.Logger.{Logged}
use belajar_backend_go_v.Routes.{Call, route_path, mux}
use belajar_backend_go_v.Routes.Admin.{
  Holds, TurnedAway, mux_admin, mux_user, IsAdminRoute, IsUserRoute, deletes, lists,
}
use belajar_backend_go_v.Tests.Fixtures.{shop, tag_validator}
use belajar_backend_go_v.Tests.Accounts.{plain_bcrypt, one_token, one_token-IsJwt}

abbrev pub delete_request : Request
delete_request = record {
  method = "DELETE";
  path = "products" ∷ "1" ∷ [];
  path_id = "";
  query = λ key. "";
  authorization = "Bearer token";
  remote_addr = "10.0.0.1:4711";
  body = json (obj (member "email" (str "ann@example.com") (member "password" (str "secret") end)));
  context = empty_context;
}

abbrev pub list_request : Request
list_request = record delete_request { method = "GET"; path = "products" ∷ []; authorization = "" }

abbrev pub call : Call
call = record { request_id = "r1"; salt = ""; now = pos 0; tick = 0 }

abbrev pub quiet : Logged (World memory)
quiet = record { state = shop; entries = [] }

abbrev pub not_here : {St : Type 0} → Handler Response St
not_here r w st = done (http_error "404 page not found" 404 w) st

delete_route : IsAdminRoute (route_path "DELETE" ("products" ∷ "1" ∷ []))
unfolding route_path
delete_route = deletes "1"

list_route : IsUserRoute (route_path "GET" ("products" ∷ []))
unfolding route_path
list_route = lists

mux_admin_example :
    ((k : Claims) × (k.role ≡ "admin") × Holds one_token "" call delete_request k)
    ⊎ TurnedAway quiet (
        mux memory tag_validator plain_bcrypt one_token "" not_here not_here call delete_request
          fresh_response quiet)
mux_admin_example =
    mux_admin one_token one_token-IsJwt "" memory tag_validator plain_bcrypt not_here not_here call
      delete_request fresh_response quiet delete_route

mux_user_example :
    ((k : Claims) × Holds one_token "" call list_request k)
    ⊎ TurnedAway quiet (
        mux memory tag_validator plain_bcrypt one_token "" not_here not_here call list_request
          fresh_response quiet)
mux_user_example =
    mux_user one_token one_token-IsJwt "" memory tag_validator plain_bcrypt not_here not_here call
      list_request fresh_response quiet list_route
