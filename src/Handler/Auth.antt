-- ===== src/Handler/Auth.antt =====
-- handler/auth_handler.go, over any implementation of `UserRepoInterface`. The salt of bcrypt, the
-- time and the value of JWT_SECRET are arguments; what is only logged is left out.
pub mod Login
pub mod Register
use belajar_backend_go_v.Base.{Option, none, some, String, ℤ, if◌then◌else◌}
use belajar_backend_go_v.Json.{Json, str, obj, end, member, unmarshal}
use belajar_backend_go_v.Models.{User, zero_user, LoginResponse}
use belajar_backend_go_v.Models.Codec.{decode_user}
use belajar_backend_go_v.Services.{GoError, no_rows, Result, ok, err}
use belajar_backend_go_v.Http.{Request, ResponseWriter, Outcome, done, Handler}
use belajar_backend_go_v.Utils.Response.{response_json, response_error}
use belajar_backend_go_v.Utils.Password.{Bcrypt, hash_password, check_password_hash}
use belajar_backend_go_v.Utils.Jwt.{Jwt, generate_token}
use belajar_backend_go_v.Repository.User.{UserRepo}

unfoldable pub encode_login : LoginResponse → Json
encode_login r = obj (member "access_token" (str r.access_token) end)

module _ {W : Type 0} ⦃rw : ResponseWriter W⦄ (R : UserRepo) (B : Bcrypt) where
  -- `Register` behind the hashing.
  unfoldable pub save_user : User → W → R.State → Outcome W R.State
  save_user u w st =
      let (failed, st') = R.register u st in
      elim failed [
        | some _ ↦ done (response_error 409 "Email mungkin sudah terdaftar" w) st'
        | none ↦ done (response_json 201 "User berhasil didaftarkan" none w) st'
      ]

  unfoldable pub register : String → Handler W R.State
  unfolding save_user hash_password
  register salt r w st =
      let (decoded_user, decoded) = unmarshal decode_user r.body zero_user in
      let u : User = record decoded_user { role = "user" } in
      if decoded
      then elim (hash_password B salt u.password) [
        | err _ ↦ done (response_error 500 "Gagal memproses password" w) st
        | ok hash ↦ save_user (record u { password = hash }) w st
      ]
      else done (response_error 400 "Invalid Input Format" w) st

  module _ (J : Jwt) where
    -- `Login` behind the look-up: the password and the token.
    unfoldable pub log_in : String → ℤ → String → User → W → R.State → Outcome W R.State
    unfolding check_password_hash generate_token encode_login
    log_in env now password user w st =
        if check_password_hash B password user.password
        then elim (generate_token J env now user.id user.email user.role) [
          | err _ ↦ done (response_error 500 "Gagal membuat token" w) st
          | ok token ↦
              done
                (response_json 200 "Login berhasil"
                  (some (encode_login (record { access_token = token }))) w)
                st
        ]
        else done (response_error 401 "Email atau password salah" w) st

    unfoldable pub login : String → ℤ → Handler W R.State
    unfolding log_in
    login env now r w st =
        let (input, decoded) = unmarshal decode_user r.body zero_user in
        let (found, st') = R.get_by_email input.email st in
        if decoded
        then elim found [
          | err no_rows ↦ done (response_error 401 "Email atau password salah" w) st'
          | err _ ↦ done (response_error 500 "Terjadi kesalahan pada server" w) st'
          | ok user ↦ log_in env now input.password user w st'
        ]
        else done (response_error 400 "Invalid Input Format" w) st
