-- ===== src/Utils/Jwt.antt =====
-- utils/jwt.go, over golang-jwt: `sign` is HS256; `parse` is given the function that picks the
-- key, the text and the time, and returns the claims beside whether the token is valid.
use package.text.Mathlib.Text.{◌==◌ as str_eq}
use belajar_backend_go_v.Base.{
  ◌≡◌, true, Bool, String, Option, some, ℤ, pos, ◌+ℤ◌, ltb_ℤ, if◌then◌else◌,
}
use belajar_backend_go_v.Models.{Claims}
use belajar_backend_go_v.Services.{GoError, failure, Result, ok, err}

-- The signing method that a token's header names.
pub data Method : Type 0 where
  hmac : Method
  other_method : String → Method

abbrev pub KeyFunc : Type 0
KeyFunc = Method → Result String

pub record Jwt : Type 0 where
  -- the method that a text names, if it is a token
  pub method : String → Option Method
  pub sign : String → Claims → Result String
  pub parse : KeyFunc → String → ℤ → Result (Claims × Bool)

-- What the program relies on: a token that it signed is read back until it expires, and a token
-- that is returned with no error is valid and not expired.
pub record IsJwt (J : Jwt) : Type 0 where
  pub parse-sign :
      (key : String) (keys : KeyFunc) (c : Claims) (token : String) (now : ℤ)
      → keys hmac ≡ ok key
      → J.sign key c ≡ ok token
      → ltb_ℤ now c.expires_at ≡ true
      → J.parse keys token now ≡ ok (c, true)
  pub parse-valid :
      (keys : KeyFunc) (token : String) (now : ℤ) (c : Claims) (valid : Bool)
      → J.parse keys token now ≡ ok (c, valid)
      → (valid ≡ true) × (ltb_ℤ now c.expires_at ≡ true)
  -- A token is accepted only under a key that the function gave for its method.
  pub parse-key :
      (keys : KeyFunc) (token : String) (now : ℤ) (r : Claims × Bool)
      → J.parse keys token now ≡ ok r
      → (m : Method) × (J.method token ≡ some m) × (key : String) × (keys m ≡ ok key)

-- `env` is the value of JWT_SECRET, empty if it is not set.
unfoldable pub secret_key : String → String
secret_key env = if str_eq env "" then "jwt_secret_buat_local" else env

unfoldable pub key_func : String → KeyFunc
unfolding secret_key
key_func env hmac = ok (secret_key env)
key_func env (other_method name) = err (failure "unexpected signing method")

-- The result of `ParseToken`: claims, an error, or neither, where a token is not valid and there
-- is no error.
pub data Parsed : Type 0 where
  claims : Claims → Parsed
  refused : GoError → Parsed
  nil_claims : Parsed

module _ (J : Jwt) where
  -- 24 hours, in seconds.
  unfoldable pub generate_token : String → ℤ → ℤ → String → String → Result String
  unfolding secret_key
  generate_token env now user_id email role =
      J.sign (secret_key env)
        (record { user_id = user_id; email = email; role = role; expires_at = now +ℤ pos 86400 })

  unfoldable pub parse_token : String → ℤ → String → Parsed
  unfolding key_func
  parse_token env now token = elim (J.parse (key_func env) token now) [
    | err e ↦ refused e
    | ok (c, valid) ↦ if valid then claims c else nil_claims
  ]
