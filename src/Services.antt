-- ===== src/Services.antt =====
-- What the program calls and does not implement: PostgreSQL behind `database/sql`, Redis, Kafka,
-- the circuit breaker of sony/gobreaker and the struct validator. Each is an interface, and what
-- the code relies on is stated in the children.
pub mod Laws
use belajar_backend_go_v.Base.{
  ◌≡◌, refl, ◌⊎◌, inl, inr, Bool, true, false, Option, none, some, List, [], ◌∷◌, String, ℤ, ℕ,
}
use belajar_backend_go_v.Json.{Document}
use belajar_backend_go_v.Models.{Product, CheckoutRequest}

-- Go's error values, as far as the program tells them apart: `sql.ErrNoRows`,
-- `gobreaker.ErrOpenState`, `resiliency.ErrServiceUnavailbale`, and any other with its text.
pub data GoError : Type 0 where
  no_rows open_state service_unavailable : GoError
  failure : String → GoError

-- `err.Error()`
unfoldable pub error_text : GoError → String
error_text no_rows = "sql: no rows in result set"
error_text open_state = "circuit breaker is open"
error_text service_unavailable = "service temporarily unavailable (circuit open)"
error_text (failure message) = message

pub data Result {ℓ} (A : Type ℓ) : Type ℓ where
  ok : A → Result A
  err : GoError → Result A

pub Result-cases {ℓ} :
    {A : Type ℓ} (r : Result A) → ((a : A) × (r ≡ ok a)) ⊎ ((e : GoError) × (r ≡ err e))
Result-cases (ok a) = inl (a, refl)
Result-cases (err e) = inr (e, refl)

infixl 5 ◌>>=◌
abbrev pub ◌>>=◌ {ℓ κ} : {A : Type ℓ} {B : Type κ} → Result A → (A → Result B) → Result B
ok a >>= k = k a
err e >>= k = err e

abbrev pub is_ok {ℓ} : {A : Type ℓ} → Result A → Bool
is_ok (ok _) = true
is_ok (err _) = false

-- A value that a statement is given or a column holds.
pub data Value : Type 0 where
  int : ℤ → Value
  txt : String → Value
  sql_null : Value

-- The rows that `Next` reaches, and the error that ended them early, if one did.
pub record Rows : Type 0 where
  pub rows : List (List Value)
  pub failed : Option GoError

-- A pool of connections to a database, and its transactions. `scan_error` is the text of the
-- error that `Scan` gives where a row does not fit the variables.
pub record Database : Type 1 where
  pub Conn : Type 0
  pub Tx : Type 0
  pub query : String → List Value → Conn → Result Rows × Conn
  pub exec : String → List Value → Conn → Option GoError × Conn
  pub begin_tx : Conn → Result Tx × Conn
  pub tx_query : String → List Value → Tx → Result Rows × Tx
  pub tx_exec : String → List Value → Tx → Option GoError × Tx
  pub commit : Tx → Conn → Option GoError × Conn
  pub rollback : Tx → Conn → Conn
  pub scan_error : List Value → String

-- `Get` with any error is `none`; the program does not look at the errors of `Set` and `Del`. The
-- third argument of `set` is the time to live, in seconds.
pub record Cache : Type 1 where
  pub Store : Type 0
  pub get : String → Store → Option Document
  pub set : String → Document → ℕ → Store → Store
  pub del : String → Store → Store

-- sarama.ProducerMessage
pub record Message : Type 0 where
  pub topic : String
  pub key : String
  pub value : Document

pub record Broker : Type 1 where
  pub Log : Type 0
  pub send : Message → Log → Option GoError × Log

-- `Execute` asks to be admitted, runs the request, and reports whether it succeeded. The circuit
-- holds the clock too.
pub record Breaker : Type 1 where
  pub Circuit : Type 0
  pub admit : Circuit → Option GoError × Circuit
  pub report : Bool → Circuit → Circuit

-- `validate.Struct`: the text of the error, or none.
pub record Validator : Type 0 where
  pub check_product : Product → Option String
  pub check_checkout : CheckoutRequest → Option String

-- `reads_limit_first`: Go does not say whether `filter.Limit` is read before or after the call
-- `filter.GetOffset()` that stands beside it in one argument list; a compiler fixes it.
pub record Services : Type 1 where
  pub database : Database
  pub cache : Cache
  pub broker : Broker
  pub breaker : Breaker
  pub reads_limit_first : Bool

-- The state behind a `ProductRepository`.
pub record World (S : Services) : Type 0 where
  pub db : S.database.Conn
  pub store : S.cache.Store
  pub log : S.broker.Log
  pub circuit : S.breaker.Circuit

-- What database/sql makes of the rows of `QueryRow`: the first, or why there is none.
unfoldable pub first_row : Rows → Result (List Value)
first_row r = elim r.rows [
  | row ∷ _ ↦ ok row
  | [] ↦ elim r.failed [ none ↦ err no_rows | some e ↦ err e ]
]

unfoldable pub first_of_result : Result Rows → Result (List Value)
unfolding first_row
first_of_result (ok r) = first_row r
first_of_result (err e) = err e

module _ (D : Database) where
  unfoldable pub query_row : String → List Value → D.Conn → Result (List Value) × D.Conn
  unfolding first_of_result
  query_row q args c = let (r, c') = D.query q args c in (first_of_result r, c')

  unfoldable pub tx_query_row : String → List Value → D.Tx → Result (List Value) × D.Tx
  unfolding first_of_result
  tx_query_row q args t = let (r, t') = D.tx_query q args t in (first_of_result r, t')
