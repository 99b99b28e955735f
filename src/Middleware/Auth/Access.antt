-- ===== src/Middleware/Auth/Access.antt =====
-- Who gets past `AuthMiddleware` and `AdminMiddleware` of middleware/auth_middleware.go.
use package.text.Mathlib.Text.{◌==◌ as str_eq}
use package.text.Mathlib.TextEquality.{eq_iff}
use package.text.Mathlib.TextPositions.{starts_with-append, len-append, slice-append_right}
use Prim.Native.String.{len}
use belajar_backend_go_v.Base.{
  ◌≡◌, ◌≢◌, ◌<>◌, refl, ap, ◌∙◌, ◌⊎◌, inl, inr, true, some, ℕ, ℤ, String, ltb_ℤ, arith, Bool-cases,
}
use belajar_backend_go_v.Models.{Claims}
use belajar_backend_go_v.Services.{GoError, ok, Result-cases}
use belajar_backend_go_v.Http.{Request, ResponseWriter, done, Handler, http_error}
use belajar_backend_go_v.Utils.Jwt.{
  Jwt, IsJwt, Method, hmac, other_method, key_func, claims, refused, parse_token,
}
use belajar_backend_go_v.Middleware.Auth.{
  trim_prefix, claims_context, auth_middleware, is_admin, admin_middleware,
}

-- `TrimPrefix` of a text behind the prefix gives that text.
pub trim_prefix-append : (prefix s : String) → trim_prefix (prefix <> s) prefix ≡ s
unfolding trim_prefix
trim_prefix-append prefix s =
    rw (starts_with-append prefix s, len-append prefix s) (slice-append_right prefix s)

pub prefixed_ne_nil : (s : String) → ("Bearer " <> s) ≢ ""
prefixed_ne_nil s e = absurd (omega (arith, len-append "Bearer " s, ap len e))

pub prefixed_ne : (s : String) → ("Bearer " <> s) ≢ s
prefixed_ne s e = absurd (omega (arith, len-append "Bearer " s, ap len e))

-- The program has a key for HMAC alone.
key_func-hmac : (env : String) (m : Method) (key : String) → key_func env m ≡ ok key → m ≡ hmac
unfolding key_func
key_func-hmac env hmac key h = refl
key_func-hmac env (other_method name) key h = absurd (ground (arith, h))

module _ (J : Jwt) (L : IsJwt J) (env : String) (now : ℤ) where
  -- What `ParseToken` gives: claims come from a token with an HMAC header that the library read
  -- under the program's key and that has not expired; `nil` claims never come.
  parse_token-cases :
      (token : String)
      → ((c : Claims) × (parse_token J env now token ≡ claims c)
          × (J.method token ≡ some hmac)
          × (J.parse (key_func env) token now ≡ ok (c, true))
          × (ltb_ℤ now c.expires_at ≡ true))
        ⊎ ((e : GoError) × (parse_token J env now token ≡ refused e))
  unfolding parse_token key_func
  parse_token-cases token = elim (Result-cases (J.parse (key_func env) token now)) [
    | inr (e, failed) ↦ inr (e, rw (failed, parse_token) refl)
    | inl ((c, valid), read) ↦
        let (is_valid, alive) = L.parse-valid (key_func env) token now c valid read in
        let (m, header, key, given) = L.parse-key (key_func env) token now (c, valid) read in
        let here : J.method token ≡ some hmac = header ∙ ap some (key_func-hmac env m key given) in
        let whole : J.parse (key_func env) token now ≡ ok (c, true) =
          read ∙ ap (λ v. ok (c, v)) is_valid in
        inl (c, rw (whole, parse_token) refl, here, whole, alive)
  ]

  module _ {W St : Type 0} ⦃writer : ResponseWriter W⦄ where
    -- A request gets past `AuthMiddleware` only with a token behind "Bearer ", that has an HMAC
    -- header, was read under the program's key and has not expired, and then with the claims of
    -- that token; any other is answered with 401 and changes nothing. It never panics by itself.
    pub auth_middleware-cases :
        (next : Handler W St) (r : Request) (w : W) (st : St)
        → let token = trim_prefix r.authorization "Bearer " in
          ((c : Claims) × (token ≢ r.authorization)
            × (J.method token ≡ some hmac)
            × (J.parse (key_func env) token now ≡ ok (c, true))
            × (ltb_ℤ now c.expires_at ≡ true)
            × (auth_middleware J env now next r w st
                ≡ next (record r { context = claims_context c }) w st))
          ⊎ ((message : String) × (auth_middleware J env now next r w st
                ≡ done (http_error message 401 w) st))
    unfolding auth_middleware
    auth_middleware-cases next r w st =
        let token = trim_prefix r.authorization "Bearer " in
        elim (Bool-cases (str_eq r.authorization "")) [
          | inl missing ↦
              rw (missing, auth_middleware) (inr ("Authorization header required", refl))
          | inr there ↦ elim (Bool-cases (str_eq token r.authorization)) [
            | inl bare ↦ rw (there, bare, auth_middleware) (inr ("Invalid token format", refl))
            | inr behind ↦
                let ne : token ≢ r.authorization =
                  λ e. ground (arith, (eq_iff token r.authorization).1 e) in
                elim (parse_token-cases token) [
                  | inr (e, failed) ↦
                      rw (there, behind, failed, auth_middleware)
                        (inr ("Invalid or expired token", refl))
                  | inl (c, read, header, parsed, alive) ↦
                      let reached : auth_middleware J env now next r w st
                          ≡ next (record r { context = claims_context c }) w st =
                        rw (there, behind, read, auth_middleware) refl in
                      inl (c, ne, header, parsed, alive, reached)
                ]
          ]
        ]

    -- With both middlewares in front, a handler is reached only by the holder of a valid,
    -- unexpired token of this program whose role is "admin"; any other request is answered with 401
    -- or 403 and changes nothing.
    pub admin_route :
        (next : Handler W St) (r : Request) (w : W) (st : St)
        → let o = auth_middleware J env now (admin_middleware next) r w st in
          ((c : Claims) × (c.role ≡ "admin")
            × (J.parse (key_func env) (trim_prefix r.authorization "Bearer ") now ≡ ok (c, true))
            × (ltb_ℤ now c.expires_at ≡ true)
            × (o ≡ next (record r { context = claims_context c }) w st))
          ⊎ ((code : ℕ) × ((code ≡ 401) ⊎ (code ≡ 403))
              × (message : String) × (o ≡ done (http_error message code w) st))
    unfolding admin_middleware is_admin claims_context
    admin_route next r w st = elim (auth_middleware-cases (admin_middleware next) r w st) [
      | inr (message, stopped) ↦ inr (401, inl refl, message, stopped)
      | inl (c, _, _, parsed, alive, reached) ↦
          let text = eq_iff c.role "admin" in
          elim (Bool-cases (is_admin (some c.role))) [
            | inl admin ↦
                let admitted : admin_middleware next (record r { context = claims_context c }) w st
                    ≡ next (record r { context = claims_context c }) w st =
                  rw (admin, admin_middleware) refl in
                inl (c, text.0 admin, parsed, alive, reached ∙ admitted)
            | inr other ↦
                let stopped : admin_middleware next (record r { context = claims_context c }) w st
                    ≡ done (http_error "Admin access required" 403 w) st =
                  rw (other, admin_middleware) refl in
                inr (403, inr refl, "Admin access required", reached ∙ stopped)
          ]
    ]
