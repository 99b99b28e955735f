-- ===== src/Repository/Checkout/Concurrent.antt =====
-- `Checkout` of repository/product_repo.go, many at once on one database. Between two statements of
-- a request other requests go on, checkouts or writes of products.
pub mod Contract
pub mod Steps
pub mod Serial
pub mod Advance
pub mod Ends
pub mod Alone
pub mod Stock
use belajar_backend_go_v.Base.{
  ℕ, Bool, Option, none, some, List, [], ◌∷◌, String, ℤ, ◌*ℤ◌, wrap64, ◌==◌, if◌then◌else◌,
}
use belajar_backend_go_v.Services.{
  GoError, failure, Result, ok, err, ◌>>=◌, Value, int, txt, Rows, first_of_result,
}
use belajar_backend_go_v.Models.{Product}
use belajar_backend_go_v.Repository.Product.{update_product, delete_product}
use belajar_backend_go_v.Repository.Checkout.{reserve_stock, insert_transaction, reserve_error}
use belajar_backend_go_v.Repository.Checkout.Conservation.{Order}

-- A database with its open transactions, each under the number of the request that it is of. A
-- statement that waits for a lock is a call that is made when the lock is free.
pub record SharedDatabase : Type 1 where
  pub Db : Type 0
  pub begin_tx : ℕ → Db → Option GoError × Db
  pub tx_query : ℕ → String → List Value → Db → Result Rows × Db
  pub exec : String → List Value → Db → Option GoError × Db
  pub tx_exec : ℕ → String → List Value → Db → Option GoError × Db
  pub commit : ℕ → Db → Option GoError × Db
  pub rollback : ℕ → Db → Db
  pub scan_error : List Value → String

-- How far a checkout has come: before `BeginTx`, behind it, with the price that the first
-- statement returned, with the total that the second one recorded, and how it ended.
pub data Phase : Type 0 where
  ready begun : Phase
  reserved recorded sold : ℤ → Phase
  failed : GoError → Phase

abbrev pub set_phase : ℕ → Phase → (ℕ → Phase) → ℕ → Phase
set_phase n phase phases m = if m == n then phase else phases m

-- The statements of `Update` and `Delete`, each of which commits by itself.
pub data Write : Type 0 where
  replace : Product → Write
  remove : ℤ → Write

abbrev pub update_statement : Product → String × List Value
update_statement p = (update_product, txt p.name ∷ int p.price ∷ int p.stock ∷ int p.id ∷ [])

abbrev pub delete_statement : ℤ → String × List Value
delete_statement id = (delete_product, int id ∷ [])

abbrev pub statement : Write → String × List Value
statement (replace p) = update_statement p
statement (remove id) = delete_statement id

pub data Turn : Type 0 where
  call : ℕ → Turn
  write : Write → Turn

module _ (D : SharedDatabase) where
  unfoldable pub scan_price : List Value → Result ℤ
  scan_price (int n ∷ []) = ok n
  scan_price row = err (failure (D.scan_error row))

  -- The next statement of a request, and the deferred `tx.Rollback()` where it fails; after
  -- `Commit` that does nothing.
  unfoldable pub advance : ℕ → Order → Phase → D.Db → Phase × D.Db
  unfolding scan_price reserve_error first_of_result
  advance n o ready d =
      let (e, d') = D.begin_tx n d in elim e [ some e ↦ (failed e, d') | none ↦ (begun, d') ]
  advance n o begun d =
      let (r, d') =
        D.tx_query n reserve_stock (int o.request.quantity ∷ int o.request.product_id ∷ []) d in
      elim (first_of_result r >>= scan_price) [
        | err e ↦ (failed (reserve_error e), D.rollback n d')
        | ok price ↦ (reserved price, d')
      ]
  advance n o (reserved price) d =
      let total = wrap64 (price *ℤ o.request.quantity) in
      let (e, d') =
        D.tx_exec n insert_transaction
          (int o.user_id ∷ int o.request.product_id ∷ int o.request.quantity ∷ int total ∷ []) d in
      elim e [ some e ↦ (failed e, D.rollback n d') | none ↦ (recorded total, d') ]
  advance n o (recorded total) d =
      let (e, d') = D.commit n d in elim e [ some e ↦ (failed e, d') | none ↦ (sold total, d') ]
  advance n o (sold total) d = (sold total, d)
  advance n o (failed e) d = (failed e, d)

  pub record Running : Type 0 where
    pub db : D.Db
    pub phases : ℕ → Phase

  -- The next call of a request, or a write of another; request `n` is of the order `orders n`.
  unfoldable pub take_turn : (ℕ → Order) → Turn → Running → Running
  unfolding advance
  take_turn orders (call n) s =
      let (phase, d) = advance n (orders n) (s.phases n) s.db in
      record { db = d; phases = set_phase n phase s.phases }
  take_turn orders (write x) s =
      let (q, args) = statement x in record s { db = (D.exec q args s.db).1 }

  unfoldable pub run : (ℕ → Order) → List Turn → Running → Running
  unfolding take_turn
  run orders [] s = s
  run orders (turn ∷ schedule) s = run orders schedule (take_turn orders turn s)
