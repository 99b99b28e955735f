-- ===== src/Tests/Login.antt =====
-- Registering and logging in, with one token.
use belajar_backend_go_v.Base.{
  ◌≡◌, refl, ◌⊎◌, true, none, some, [], ◌∷◌, pos, ◌+ℤ◌, ltb_ℤ, ◌<>◌, String,
}
use belajar_backend_go_v.Json.{unmarshal, decode_struct, fits, decode_string}
use belajar_backend_go_v.Models.{User, zero_user}
use belajar_backend_go_v.Models.Codec.{decode_user}
use belajar_backend_go_v.Services.{failure, ok}
use belajar_backend_go_v.Http.{fresh_response, http_writer, done, send_status, send_content}
use belajar_backend_go_v.Utils.Response.{response_json}
use belajar_backend_go_v.Utils.Jwt.{secret_key}
use belajar_backend_go_v.Handler.Status.{status_of, state_of}
use belajar_backend_go_v.Handler.Auth.{login, register, save_user}
use belajar_backend_go_v.Handler.Auth.Register.{register-login}
use belajar_backend_go_v.Utils.Password.{hash_password}
use belajar_backend_go_v.Handler.Auth.Login.{
  user_claims, token_reply, login_granted, login-auth_middleware,
}
use belajar_backend_go_v.Middleware.Auth.{claims_context, auth_middleware}
use belajar_backend_go_v.Tests.Fixtures.{shop}
use belajar_backend_go_v.Tests.Accounts.{
  plain_bcrypt, ann, one_token, one_token-IsJwt, user_list, plain_bcrypt-IsBcrypt,
  user_list-IsUserRepo,
}
use belajar_backend_go_v.Tests.Access.{delete_request, list_request, not_here}

signed_in :
    status_of
      (login user_list plain_bcrypt one_token "" (pos 0) delete_request fresh_response (ann ∷ []))
    ≡ some 200
unfolding login unmarshal decode_user decode_struct fits decode_string ◌+ℤ◌ response_json
    send_status send_content
signed_in = refl

login_granted_example :
    let input = (unmarshal decode_user delete_request.body zero_user).0 in
    (user : User) × ((user_list.get_by_email input.email (ann ∷ [])).0 ≡ ok user)
    × (plain_bcrypt.compare user.password input.password ≡ none)
    × (token : String) × (one_token.sign (secret_key "") (user_claims (pos 0) user) ≡ ok token)
    × (login user_list plain_bcrypt one_token "" (pos 0) delete_request fresh_response (ann ∷ [])
        ≡ done (token_reply token fresh_response) (ann ∷ []))
login_granted_example =
    login_granted user_list plain_bcrypt one_token "" (pos 0) delete_request (ann ∷ []) signed_in

decoded : (unmarshal decode_user delete_request.body zero_user).1 ≡ true
unfolding unmarshal decode_user decode_struct fits decode_string
decoded = refl

-- Nobody is known, and Ann's password is another.
abbrev other_ann : User
other_ann = record ann { password = "other" }

found :
    (user_list.get_by_email
      (unmarshal decode_user delete_request.body zero_user).0.email
      (other_ann ∷ [])).0
    ≡ ok other_ann
unfolding unmarshal decode_user decode_struct fits decode_string
found = refl

wrong :
    plain_bcrypt.compare "other" (unmarshal decode_user delete_request.body zero_user).0.password
    ≡ some (failure "mismatch")
unfolding unmarshal decode_user decode_struct fits decode_string
wrong = refl

token_of_ann : one_token.sign (secret_key "") (user_claims (pos 0) ann) ≡ ok "token"
unfolding secret_key ◌+ℤ◌
token_of_ann = refl

in_time : ltb_ℤ (pos 60) (pos 0 +ℤ pos 86400) ≡ true
unfolding ◌+ℤ◌
in_time = refl

login-auth_middleware_example :
    auth_middleware one_token ""
      (pos 60)
      not_here
      (record list_request { authorization = "Bearer " <> "token" })
      fresh_response
      shop
    ≡ not_here
        (record list_request {
          authorization = "Bearer " <> "token";
          context = claims_context (user_claims (pos 0) ann);
        })
        fresh_response
        shop
login-auth_middleware_example =
    login-auth_middleware user_list plain_bcrypt one_token "" (pos 0) one_token-IsJwt ann "token"
      (pos 60) not_here list_request fresh_response shop token_of_ann in_time

registered :
    status_of (register user_list plain_bcrypt "" delete_request fresh_response []) ≡ some 201
unfolding register save_user hash_password unmarshal decode_user decode_struct fits decode_string
    response_json send_status send_content
registered = refl

register-login_example :
    let input = (unmarshal decode_user delete_request.body zero_user).0 in
    let o = register user_list plain_bcrypt "" delete_request fresh_response [] in
    let p =
      login user_list plain_bcrypt one_token ""
        (pos 0)
        delete_request
        fresh_response
        (state_of o) in
    ((user : User) × (user.email ≡ input.email)
      × (user.role ≡ "user")
      × (token : String) × (one_token.sign (secret_key "") (user_claims (pos 0) user) ≡ ok token)
      × (p
          ≡ done
              (token_reply token fresh_response)
              (user_list.get_by_email input.email (state_of o)).1))
    ⊎ (status_of p ≡ some 500)
register-login_example =
    register-login user_list plain_bcrypt one_token "" (pos 0) user_list-IsUserRepo
      plain_bcrypt-IsBcrypt "" delete_request [] registered
