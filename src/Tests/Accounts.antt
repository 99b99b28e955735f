-- ===== src/Tests/Accounts.antt =====
-- Users, hashes and tokens for the tests: hashes and tokens are plain texts.
use package.text.Mathlib.Text.{◌==◌ as str_eq}
use package.text.Mathlib.TextEquality.{eq_iff}
use belajar_backend_go_v.Base.{
  ◌≡◌, refl, sym, ap, ◌∙◌, inl, inr, Bool, true, ◌&&◌, Option, none, some, List, [], ◌∷◌, ℤ, pos,
  ltb_ℤ, eqb_ℤ, eqb_ℤ_iff, String, if◌then◌else◌, arith, Bool-cases,
}
use belajar_backend_go_v.Models.{User, Claims}
use belajar_backend_go_v.Services.{failure, no_rows, Result, ok, err}
use belajar_backend_go_v.Repository.User.{UserRepo}
use belajar_backend_go_v.Utils.Password.{Bcrypt, IsBcrypt}
use belajar_backend_go_v.Handler.Auth.Register.{IsUserRepo}
use belajar_backend_go_v.Utils.Jwt.{Jwt, IsJwt, hmac}

-- A password is its own hash.
abbrev pub plain_bcrypt : Bcrypt
plain_bcrypt = record {
  generate = λ salt password. ok password;
  compare = λ hash password. if str_eq hash password then none else some (failure "mismatch");
}

abbrev pub ann : User
ann = record { id = pos 7; email = "ann@example.com"; password = "secret"; role = "admin" }

-- The claims of the one token there is.
abbrev pub ann_claims : Claims
ann_claims = record {
  user_id = pos 7;
  email = "ann@example.com";
  role = "admin";
  expires_at = pos 86400;
}

abbrev is_ann : Claims → Bool
is_ann c =
    eqb_ℤ c.user_id (pos 7)
    && (str_eq c.email "ann@example.com"
        && (str_eq c.role "admin" && eqb_ℤ c.expires_at (pos 86400)))

abbrev pub one_key : String
one_key = "jwt_secret_buat_local"

abbrev read_token : Result String → String → ℤ → Result (Claims × Bool)
read_token (err e) token now = err e
read_token (ok key) token now =
    if str_eq key one_key && (str_eq token "token" && ltb_ℤ now (pos 86400))
    then ok (ann_claims, true)
    else err (failure "token is invalid")

abbrev pub one_token : Jwt
one_token = record {
  method = λ token. some hmac;
  sign = λ key c. if str_eq key one_key && is_ann c then ok "token" else err (failure "signing");
  parse = λ keys token now. read_token (keys hmac) token now;
}

read_token_ok :
    (k : Result String) (token : String) (now : ℤ) (c : Claims) (valid : Bool)
    → read_token k token now ≡ ok (c, valid)
    → (key : String) × (k ≡ ok key)
      × (c ≡ ann_claims)
      × (valid ≡ true)
      × (ltb_ℤ now (pos 86400) ≡ true)
read_token_ok (err e) token now c valid h = absurd (ground (arith, h))
read_token_ok (ok key) token now c valid h =
    (key, refl, ground (arith, h), ground (arith, h), ground (arith, h))

is_ann_only : (c : Claims) → is_ann c ≡ true → c ≡ ann_claims
is_ann_only c h = ground (
  arith,
  h,
  eqb_ℤ_iff c.user_id (pos 7),
  eqb_ℤ_iff c.expires_at (pos 86400),
  eq_iff c.email "ann@example.com",
  eq_iff c.role "admin",
)

sign_ok :
    (key : String) (c : Claims) (token : String)
    → one_token.sign key c ≡ ok token
    → (key ≡ one_key) × (c ≡ ann_claims) × (token ≡ "token")
sign_ok key c token h = elim (Bool-cases (str_eq key one_key && is_ann c)) [
  | inl both ↦ (
    ground (arith, both, eq_iff key one_key),
    is_ann_only c (ground (arith, both)),
    ground (arith, h, both),
  )
  | inr other ↦ absurd (ground (arith, h, other))
]

pub one_token-IsJwt : IsJwt one_token
one_token-IsJwt = record {
  parse-sign = λ key keys c token now given signed alive.
      let (right_key, right_claims, right_token) = sign_ok key c token signed in
      let before : ltb_ℤ now (pos 86400) ≡ true =
        ap (λ (k : Claims). ltb_ℤ now k.expires_at) (sym right_claims) ∙ alive in
      rw (given, right_claims, right_key, right_token, before) refl;
  parse-valid = λ keys token now c valid read.
      let (_, _, right_claims, is_valid, before) =
        read_token_ok (keys hmac) token now c valid read in
      (is_valid, rw (right_claims) before);
  parse-key = λ keys token now r read.
      let (key, given, _, _, _) = read_token_ok (keys hmac) token now r.0 r.1 read in
      (hmac, refl, key, given);
}

abbrev find_user : String → List User → Result User
find_user email [] = err no_rows
find_user email (u ∷ us) = if str_eq u.email email then ok u else find_user email us

abbrev pub user_list : UserRepo
user_list = record {
  State = List User;
  register = λ u us. (none, record u { id = pos 7; role = "user" } ∷ us);
  get_by_email = λ email us. (find_user email us, us);
}

pub plain_bcrypt-IsBcrypt : IsBcrypt plain_bcrypt
plain_bcrypt-IsBcrypt = record {
  compare-generate = λ salt password hash made. ground (arith, made, eq_iff hash password);
}

abbrev if_found : Result User → Option User
if_found (ok u) = some u
if_found (err e) = none

user_list-register :
    (u : User) (us : List User)
    → if_found (find_user u.email (record u { id = pos 7; role = "user" } ∷ us))
      ≡ some (record u { id = pos 7; role = "user" })
user_list-register u us = ground (arith, eq_iff u.email u.email)

pub user_list-IsUserRepo : IsUserRepo user_list
user_list-IsUserRepo = record {
  find = λ us email. if_found (find_user email us);
  register-ok = λ u us stored. (pos 7, user_list-register u us);
  get-ok = λ email us u found. ap if_found found;
  get-none = λ email us missing. ap if_found missing;
}
