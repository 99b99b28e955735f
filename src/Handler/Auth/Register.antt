-- ===== src/Handler/Auth/Register.antt =====
-- `Register` of handler/auth_handler.go, and a `Login` after it.
use belajar_backend_go_v.Base.{
  ◌≡◌, refl, ap, ◌∙◌, ◌⊎◌, inl, inr, true, Option, none, some, ℤ, String, arith, Option-cases,
  Bool-cases,
}
use belajar_backend_go_v.Json.{unmarshal}
use belajar_backend_go_v.Models.{User, zero_user}
use belajar_backend_go_v.Models.Codec.{decode_user}
use belajar_backend_go_v.Services.{no_rows, ok, err, Result-cases}
use belajar_backend_go_v.Http.{
  Request, fresh_response, http_writer, done, send_status, send_content,
}
use belajar_backend_go_v.Utils.Response.{response_json, response_error}
use belajar_backend_go_v.Utils.Password.{Bcrypt, IsBcrypt, hash_password}
use belajar_backend_go_v.Utils.Jwt.{Jwt, secret_key}
use belajar_backend_go_v.Repository.User.{UserRepo}
use belajar_backend_go_v.Handler.Status.{status_of, state_of}
use belajar_backend_go_v.Handler.Auth.{login, register, save_user}
use belajar_backend_go_v.Handler.Auth.Login.{
  user_claims, token_reply, login_found, log_in_right, login_missing,
}

-- The table of users, by email: a new row gets an id and the role "user", which is the default of
-- the column, and a query returns what is there.
pub record IsUserRepo (R : UserRepo) : Type 0 where
  pub find : R.State → String → Option User
  pub register-ok :
      (u : User) (st : R.State)
      → (R.register u st).0 ≡ none
      → (id : ℤ) × (find (R.register u st).1 u.email ≡ some (record u { id = id; role = "user" }))
  pub get-ok :
      (email : String) (st : R.State) (u : User)
      → (R.get_by_email email st).0 ≡ ok u
      → find st email ≡ some u
  pub get-none :
      (email : String) (st : R.State)
      → (R.get_by_email email st).0 ≡ err no_rows
      → find st email ≡ none

module _ (R : UserRepo) (B : Bcrypt) where
  -- What `Register` stores where it answers 201.
  register_stored :
      (salt : String) (r : Request) (st : R.State)
      → let input = unmarshal decode_user r.body zero_user in
        let o = register R B salt r fresh_response st in
        status_of o ≡ some 201
        → (hash : String) × (input.1 ≡ true)
          × (B.generate salt input.0.password ≡ ok hash)
          × ((R.register (record input.0 { role = "user"; password = hash }) st).0 ≡ none)
          × (state_of o ≡ (R.register (record input.0 { role = "user"; password = hash }) st).1)
  unfolding register save_user hash_password response_json response_error send_status send_content
  register_stored salt r st h =
      let input = unmarshal decode_user r.body zero_user in
      let o = register R B salt r fresh_response st in
      elim (Bool-cases input.1) [
        | inr bad ↦
            let refused : status_of o ≡ some 400 = rw (bad, register) refl in
            absurd (ground (arith, h, refused))
        | inl fine ↦ elim (Result-cases (B.generate salt input.0.password)) [
          | inr (e, failed) ↦
              let refused : status_of o ≡ some 500 = rw (fine, failed, register) refl in
              absurd (ground (arith, h, refused))
          | inl (hash, hashed) ↦
              let u : User = record input.0 { role = "user"; password = hash } in
              elim (Option-cases (R.register u st).0) [
                | inr (e, taken) ↦
                    let refused : status_of o ≡ some 409 =
                      rw (fine, hashed, taken, register, save_user) refl in
                    absurd (ground (arith, h, refused))
                | inl stored ↦
                    let after : state_of o ≡ (R.register u st).1 =
                      rw (fine, hashed, stored, register, save_user) refl in
                    (hash, fine, hashed, stored, after)
              ]
        ]
      ]

  pub register-login :
      (J : Jwt) (env : String) (now : ℤ) (L : IsUserRepo R) (K : IsBcrypt B) (salt : String)
      (r : Request) (st : R.State)
      → let input = (unmarshal decode_user r.body zero_user).0 in
        let o = register R B salt r fresh_response st in
        let p = login R B J env now r fresh_response (state_of o) in
        status_of o ≡ some 201
        → ((user : User) × (user.email ≡ input.email)
            × (user.role ≡ "user")
            × (token : String) × (J.sign (secret_key env) (user_claims now user) ≡ ok token)
            × (p
                ≡ done
                    (token_reply token fresh_response)
                    (R.get_by_email input.email (state_of o)).1))
          ⊎ (status_of p ≡ some 500)
  unfolding response_json response_error send_status send_content
  register-login J env now L K salt r st h =
      let input = unmarshal decode_user r.body zero_user in
      let (hash, fine, hashed, stored, after) = register_stored salt r st h in
      let o = register R B salt r fresh_response st in
      let (id, row) = L.register-ok (record input.0 { role = "user"; password = hash }) st stored in
      let there : L.find (state_of o) input.0.email
          ≡ some (record input.0 { id = id; role = "user"; password = hash }) =
        ap (λ s. L.find s input.0.email) after ∙ row in
      elim (Result-cases (R.get_by_email input.0.email (state_of o)).0) [
        | inl (user, found) ↦
            let same : user ≡ record input.0 { id = id; role = "user"; password = hash } =
              ground (arith, L.get-ok input.0.email (state_of o) user found, there) in
            let right : B.compare user.password input.0.password ≡ none =
              ap (λ (u : User). B.compare u.password input.0.password) same
              ∙ K.compare-generate salt input.0.password hash hashed in
            let answered =
              login_found R B J env now r fresh_response (state_of o) user fine found in
            elim (log_in_right R B J env now input.0.password user fresh_response
              (R.get_by_email input.0.email (state_of o)).1 right) [
                | inl (token, signed, granted) ↦ inl (
                  user,
                  ap (λ (u : User). u.email) same,
                  ap (λ (u : User). u.role) same,
                  token,
                  signed,
                  answered ∙ granted,
                )
                | inr failed ↦ inr (ap status_of (answered ∙ failed))
              ]
        | inr (e, failed) ↦ elim (login_missing R B J env now r (state_of o) e fine failed) [
          | inl (gone, _) ↦
              let missing = L.get-none input.0.email (state_of o) (failed ∙ ap err gone) in
              absurd (ground (arith, missing, there))
          | inr broken ↦ inr broken
        ]
      ]
