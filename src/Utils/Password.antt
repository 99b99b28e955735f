-- ===== src/Utils/Password.antt =====
-- utils/password.go, over bcrypt: `generate` hashes a password with a salt, at the default cost,
-- and `compare` has the hash first.
use belajar_backend_go_v.Base.{◌≡◌, true, false, Bool, String, Option, none}
use belajar_backend_go_v.Services.{GoError, Result, ok}

pub record Bcrypt : Type 0 where
  pub generate : String → String → Result String
  pub compare : String → String → Option GoError

-- A hash accepts the password that it was made of.
pub record IsBcrypt (B : Bcrypt) : Type 0 where
  pub compare-generate :
      (salt password hash : String)
      → B.generate salt password ≡ ok hash
      → B.compare hash password ≡ none

module _ (B : Bcrypt) where
  unfoldable pub hash_password : String → String → Result String
  hash_password salt password = B.generate salt password

  unfoldable pub check_password_hash : String → String → Bool
  check_password_hash password hash = elim (B.compare hash password) [ none ↦ true | _ ↦ false ]
