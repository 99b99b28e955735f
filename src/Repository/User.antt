-- ===== src/Repository/User.antt =====
-- repository/user_repo.go: the interface that the handlers take, and its implementation.
use belajar_backend_go_v.Base.{Option, List, [], ◌∷◌, String}
use belajar_backend_go_v.Models.{User}
use belajar_backend_go_v.Services.{
  GoError, failure, Result, ok, err, ◌>>=◌, Value, int, txt, Database, query_row,
}

-- `UserRepoInterface`, with the state behind it.
pub record UserRepo : Type 1 where
  pub State : Type 0
  pub register : User → State → Option GoError × State
  pub get_by_email : String → State → Result User × State

abbrev pub insert_user : String
insert_user = "INSERT INTO users (email, password) VALUES ($1, $2)"

abbrev pub select_user : String
select_user = "SELECT id, email, password, role FROM users WHERE email = $1"

module _ (D : Database) where
  unfoldable pub register : User → D.Conn → Option GoError × D.Conn
  register u = D.exec insert_user (txt u.email ∷ txt u.password ∷ [])

  -- `Scan(&u.ID, &u.Email, &u.Password, &u.Role)`
  unfoldable pub scan_user : List Value → Result User
  scan_user (int id ∷ txt email ∷ txt password ∷ txt role ∷ []) =
      ok (record { id = id; email = email; password = password; role = role })
  scan_user row = err (failure (D.scan_error row))

  unfoldable pub get_by_email : String → D.Conn → Result User × D.Conn
  unfolding scan_user
  get_by_email email c =
      let (r, c') = query_row D select_user (txt email ∷ []) c in (r >>= scan_user, c')

  -- `UserRepository` as the interface.
  unfoldable pub user_repository : UserRepo
  unfolding register get_by_email
  user_repository = record { State = D.Conn; register = register; get_by_email = get_by_email }
