-- ===== src/Handler/Auth/Login.antt =====
-- `Login` and `Register` of handler/auth_handler.go: who is given a token, and what it says.
use package.text.Mathlib.TextEquality.{eq_iff}
use belajar_backend_go_v.Base.{
  ◌≡◌, ◌≢◌, refl, sym, ap, ◌∙◌, ◌⊎◌, inl, inr, true, none, some, ℤ, pos, ◌+ℤ◌, ltb_ℤ, ◌<>◌, String,
  arith, Option-cases, Bool-cases,
}
use belajar_backend_go_v.Json.{unmarshal}
use belajar_backend_go_v.Models.{User, zero_user, Claims}
use belajar_backend_go_v.Models.Codec.{decode_user}
use belajar_backend_go_v.Services.{
  GoError, no_rows, open_state, service_unavailable, failure, ok, err, Result-cases,
}
use belajar_backend_go_v.Http.{
  Request, ResponseWriter, fresh_response, http_writer, done, Handler, send_status, send_content,
}
use belajar_backend_go_v.Utils.Response.{response_json, response_error}
use belajar_backend_go_v.Utils.Password.{Bcrypt, check_password_hash}
use belajar_backend_go_v.Utils.Jwt.{
  Jwt, IsJwt, parse_token, claims, key_func, secret_key, generate_token,
}
use belajar_backend_go_v.Repository.User.{UserRepo}
use belajar_backend_go_v.Middleware.Auth.{auth_middleware, claims_context}
use belajar_backend_go_v.Middleware.Auth.Access.{trim_prefix-append, prefixed_ne, prefixed_ne_nil}
use belajar_backend_go_v.Handler.Status.{status_of}
use belajar_backend_go_v.Handler.Auth.{encode_login, log_in, login}

-- The claims that `Login` signs for a user: a day from now.
abbrev pub user_claims : ℤ → User → Claims
user_claims now u = record {
  user_id = u.id;
  email = u.email;
  role = u.role;
  expires_at = now +ℤ pos 86400;
}

-- The answer with a token.
abbrev pub token_reply : {W : Type 0} ⦃writer : ResponseWriter W⦄ → String → W → W
token_reply token w =
    response_json 200 "Login berhasil" (some (encode_login (record { access_token = token }))) w

module _ (R : UserRepo) (B : Bcrypt) (J : Jwt) (env : String) (now : ℤ) where
  module _ {W : Type 0} ⦃writer : ResponseWriter W⦄ where
    log_in_wrong :
        (password : String) (user : User) (w : W) (st : R.State) (e : GoError)
        → B.compare user.password password ≡ some e
        → log_in R B J env now password user w st
          ≡ done (response_error 401 "Email atau password salah" w) st
    unfolding log_in check_password_hash
    log_in_wrong password user w st e wrong = ground arith

    pub log_in_right :
        (password : String) (user : User) (w : W) (st : R.State)
        → B.compare user.password password ≡ none
        → ((token : String) × (J.sign (secret_key env) (user_claims now user) ≡ ok token)
            × (log_in R B J env now password user w st ≡ done (token_reply token w) st))
          ⊎ (log_in R B J env now password user w st
              ≡ done (response_error 500 "Gagal membuat token" w) st)
    unfolding log_in check_password_hash generate_token secret_key
    log_in_right password user w st right =
        elim (Result-cases (J.sign (secret_key env) (user_claims now user))) [
          | inl (token, signed) ↦ inl (token, signed, ground arith)
          | inr (e, failed) ↦ inr (ground arith)
        ]

    pub login_found :
        (r : Request) (w : W) (st : R.State) (user : User)
        → let input = unmarshal decode_user r.body zero_user in
          let found = R.get_by_email input.0.email st in
          input.1 ≡ true
          → found.0 ≡ ok user
          → login R B J env now r w st ≡ log_in R B J env now input.0.password user w found.1
    unfolding login
    login_found r w st user fine found = rw (fine, found, login) refl

    login_unknown :
        (r : Request) (w : W) (st : R.State)
        → let input = unmarshal decode_user r.body zero_user in
          let found = R.get_by_email input.0.email st in
          input.1 ≡ true
          → found.0 ≡ err no_rows
          → login R B J env now r w st
            ≡ done (response_error 401 "Email atau password salah" w) found.1
    unfolding login
    login_unknown r w st fine missing = rw (fine, missing, login) refl

    -- An email that nobody has, and a wrong password for one that somebody has, are answered in the
    -- same way.
    pub login_refusals :
        (r : Request) (w : W) (st st₂ : R.State) (user : User) (e : GoError)
        → let input = unmarshal decode_user r.body zero_user in
          input.1 ≡ true
          → (R.get_by_email input.0.email st).0 ≡ err no_rows
          → (R.get_by_email input.0.email st₂).0 ≡ ok user
          → B.compare user.password input.0.password ≡ some e
          → (reply : W) × (login R B J env now r w st
              ≡ done reply (R.get_by_email input.0.email st).1)
            × (login R B J env now r w st₂ ≡ done reply (R.get_by_email input.0.email st₂).1)
    login_refusals r w st st₂ user e fine missing found wrong = (
      response_error 401 "Email atau password salah" w,
      login_unknown r w st fine missing,
      login_found r w st₂ user fine found ∙ log_in_wrong _ user w _ e wrong,
    )

  pub login_missing :
      (r : Request) (st : R.State) (e : GoError)
      → let input = unmarshal decode_user r.body zero_user in
        input.1 ≡ true
        → (R.get_by_email input.0.email st).0 ≡ err e
        → let o = login R B J env now r fresh_response st in
          ((e ≡ no_rows) × (status_of o ≡ some 401)) ⊎ (status_of o ≡ some 500)
  unfolding login response_error send_status send_content
  login_missing r st no_rows fine missing = rw (fine, missing, login) (inl (refl, refl))
  login_missing r st open_state fine missing = rw (fine, missing, login) (inr refl)
  login_missing r st service_unavailable fine missing = rw (fine, missing, login) (inr refl)
  login_missing r st (failure message) fine missing = rw (fine, missing, login) (inr refl)

  -- A login is answered with 200 only where the email is that of a stored user and the password
  -- passes against the hash of that user; the answer is a token signed with the program's key that
  -- names that user's id, email and role and expires after a day.
  pub login_granted :
      (r : Request) (st : R.State)
      → let input = unmarshal decode_user r.body zero_user in
        let o = login R B J env now r fresh_response st in
        status_of o ≡ some 200
        → (user : User) × ((R.get_by_email input.0.email st).0 ≡ ok user)
          × (B.compare user.password input.0.password ≡ none)
          × (token : String) × (J.sign (secret_key env) (user_claims now user) ≡ ok token)
          × (o ≡ done (token_reply token fresh_response) (R.get_by_email input.0.email st).1)
  unfolding login response_json response_error send_status send_content
  login_granted r st h =
      let input = unmarshal decode_user r.body zero_user in
      let o = login R B J env now r fresh_response st in
      elim (Bool-cases input.1) [
        | inr bad ↦
            let refused : status_of o ≡ some 400 = rw (bad, login) refl in
            absurd (ground (arith, h, refused))
        | inl fine ↦ elim (Result-cases (R.get_by_email input.0.email st).0) [
          | inl (user, found) ↦ elim (Option-cases (B.compare user.password input.0.password)) [
            | inr (e, wrong) ↦
                let refused = ap status_of (
                  login_found r fresh_response st user fine found
                  ∙ log_in_wrong _ user fresh_response _ e wrong) in
                absurd (ground (arith, h, refused))
            | inl right ↦
                elim (log_in_right input.0.password user fresh_response
                  (R.get_by_email input.0.email st).1 right) [
                    | inl (token, signed, answered) ↦ (
                      user,
                      found,
                      right,
                      token,
                      signed,
                      login_found r fresh_response st user fine found ∙ answered,
                    )
                    | inr failed ↦
                        let refused =
                          ap status_of (login_found r fresh_response st user fine found ∙ failed) in
                        absurd (ground (arith, h, refused))
                  ]
          ]
          | inr (e, missing) ↦ absurd (ground (arith, h, login_missing r st e fine missing))
        ]
      ]

  -- The token of a login, presented behind "Bearer " within the day, lets its user through with the
  -- stored id, email and role.
  pub login-auth_middleware :
      {W St : Type 0} ⦃writer : ResponseWriter W⦄
      → (L : IsJwt J) (user : User) (token : String) (later : ℤ) (next : Handler W St) (r : Request)
        (w : W) (st : St)
      → J.sign (secret_key env) (user_claims now user) ≡ ok token
      → ltb_ℤ later (now +ℤ pos 86400) ≡ true
      → auth_middleware J env later next (record r { authorization = "Bearer " <> token }) w st
        ≡ next
            (record r {
              authorization = "Bearer " <> token;
              context = claims_context (user_claims now user);
            })
            w
            st
  unfolding auth_middleware parse_token key_func claims_context
  login-auth_middleware L user token later next r w st signed alive =
      let read =
        L.parse-sign (secret_key env) (key_func env) (user_claims now user) token later refl signed
          alive in
      let parsed : parse_token J env later token ≡ claims (user_claims now user) =
        rw (read, parse_token) refl in
      let there = prefixed_ne_nil token in
      let behind : token ≢ ("Bearer " <> token) = λ e. prefixed_ne token (sym e) in
      let text = trim_prefix-append "Bearer " token in
      ground (
        arith,
        parsed,
        text,
        behind,
        there,
        eq_iff ("Bearer " <> token) "",
        eq_iff token ("Bearer " <> token),
      )
