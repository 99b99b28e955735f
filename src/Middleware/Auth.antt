-- ===== src/Middleware/Auth.antt =====
-- middleware/auth_middleware.go
pub mod Access
use Prim.Native.String.{String, len, slice}
use package.text.Mathlib.Text.{◌==◌ as str_eq, starts_with}
use belajar_backend_go_v.Base.{Bool, true, false, not, Option, none, some, ℤ, if◌then◌else◌}
use belajar_backend_go_v.Models.{Claims}
use belajar_backend_go_v.Http.{
  Request, Context, ResponseWriter, Outcome, done, panic, Handler, http_error,
}
use belajar_backend_go_v.Utils.Jwt.{Jwt, parse_token, Parsed, claims, refused, nil_claims}

-- `strings.TrimPrefix`
unfoldable pub trim_prefix : String → String → String
trim_prefix s prefix = if starts_with s prefix then slice s (len prefix) (len s) else s

unfoldable pub claims_context : Claims → Context
claims_context c = record { role = some c.role; user_id = some c.user_id; email = some c.email }

-- The role of a context, asserted to be a text, is "admin".
unfoldable pub is_admin : Option String → Bool
is_admin none = false
is_admin (some role) = str_eq role "admin"

module _ {W St : Type 0} ⦃rw : ResponseWriter W⦄ where
  module _ (J : Jwt) (env : String) (now : ℤ) where
    -- `claims.Role` panics on nil claims.
    unfoldable pub auth_middleware : Handler W St → Handler W St
    unfolding trim_prefix claims_context parse_token
    auth_middleware next r w st =
        let token = trim_prefix r.authorization "Bearer " in
        if str_eq r.authorization ""
        then done (http_error "Authorization header required" 401 w) st
        else if str_eq token r.authorization
        then done (http_error "Invalid token format" 401 w) st
        else elim (parse_token J env now token) [
          | refused _ ↦ done (http_error "Invalid or expired token" 401 w) st
          | nil_claims ↦ panic st
          | claims c ↦ next (record r { context = claims_context c }) w st
        ]

  unfoldable pub admin_middleware : Handler W St → Handler W St
  unfolding is_admin
  admin_middleware next r w st =
      if not (is_admin r.context.role)
      then done (http_error "Admin access required" 403 w) st
      else next r w st
