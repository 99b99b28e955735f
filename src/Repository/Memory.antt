-- ===== src/Repository/Memory.antt =====
-- Services in memory, on which the theorems are run: they meet every contract.
pub mod Laws
pub mod Stores
pub mod Shared
pub mod Selects
use package.text.Mathlib.Text.{◌==◌ as str_eq}
use mathlib.Core.Option
use belajar_backend_go_v.Base.{
  Bool, true, false, ◌&&◌, Option, none, some, List, [], ◌∷◌, ◌++◌, String, ℤ, pos, ◌+ℤ◌, ◌-ℤ◌,
  eqb_ℤ, leb_ℤ, if◌then◌else◌, min_int, max_int,
}
use belajar_backend_go_v.Json.{Document}
use belajar_backend_go_v.Models.{Product, Transaction}
use belajar_backend_go_v.Services.{
  GoError, failure, Result, ok, err, Value, int, txt, Rows, Database, Cache, Message, Broker,
  Breaker, Services,
}
use belajar_backend_go_v.Repository.Product.{
  select_product, insert_product, update_product, delete_product,
}
use belajar_backend_go_v.Repository.Checkout.{reserve_stock, insert_transaction}
use belajar_backend_go_v.Repository.Contract.{Tables, set_row, add_transaction, product_row}

-- The tables, the ids of the products in order of insertion, the next id, and whether statements
-- fail for now.
pub record Db : Type 0 where
  pub tables : Tables
  pub ids : List ℤ
  pub next : ℤ
  pub down : Bool

abbrev pub refused : GoError
refused = failure "connection refused"

abbrev in_int64 : ℤ → Bool
in_int64 x = leb_ℤ min_int x && leb_ℤ x max_int

abbrev pub row_answer : ℤ → Option Product → Result Rows
row_answer id none = ok (record { rows = []; failed = none })
row_answer id (some p) =
    if eqb_ℤ p.id id && (in_int64 p.id && (in_int64 p.price && in_int64 p.stock))
    then ok (record { rows = product_row p ∷ []; failed = none })
    else err refused

unfoldable pub run_select : List Value → Db → Result Rows × Db
run_select (int id ∷ []) db = (row_answer id (db.tables.product id), db)
run_select _ db = (err refused, db)

unfoldable pub run_insert : List Value → Db → Result Rows × Db
run_insert (txt name ∷ int price ∷ int stock ∷ []) db = elim (db.tables.product db.next) [
  | some _ ↦ (err refused, db)
  | none ↦ (
    ok (record { rows = (int db.next ∷ []) ∷ []; failed = none }),
    record db {
      tables =
          set_row db.next
            (some (record { id = db.next; name = name; price = price; stock = stock })) db.tables;
      ids = db.ids ++ db.next ∷ [];
      next = db.next +ℤ pos 1;
    },
  )
]
run_insert _ db = (err refused, db)

abbrev listed : Tables → List ℤ → List (List Value)
listed t [] = []
listed t (id ∷ ids) = elim (t.product id) [
  | none ↦ listed t ids
  | some p ↦ product_row p ∷ listed t ids
]

unfoldable pub mem_query : String → List Value → Db → Result Rows × Db
unfolding run_select run_insert
mem_query q args db =
    if db.down
    then (err refused, db)
    else if str_eq q select_product
    then run_select args db
    else if str_eq q insert_product
    then run_insert args db
    else (ok (record { rows = listed db.tables db.ids; failed = none }), db)

unfoldable pub run_update : List Value → Db → Option GoError × Db
run_update (txt name ∷ int price ∷ int stock ∷ int id ∷ []) db = (
  none,
  record db {
    tables =
        set_row id
          (Option.map (λ _. record { id = id; name = name; price = price; stock = stock })
            (db.tables.product id))
          db.tables;
  },
)
run_update _ db = (some refused, db)

unfoldable pub run_delete : List Value → Db → Option GoError × Db
run_delete (int id ∷ []) db = (none, record db { tables = set_row id none db.tables })
run_delete _ db = (some refused, db)

unfoldable pub run_record : List Value → Db → Option GoError × Db
run_record (int user_id ∷ int id ∷ int quantity ∷ int total ∷ []) db = (
  none,
  record db {
    tables =
        add_transaction
          (record {
            id = pos 1;
            user_id = user_id;
            product_id = id;
            quantity = quantity;
            total_price = total;
            created_at = pos 0;
          })
          db.tables;
  },
)
run_record _ db = (some refused, db)

unfoldable pub mem_exec : String → List Value → Db → Option GoError × Db
unfolding run_update run_delete run_record
mem_exec q args db =
    if db.down
    then (some refused, db)
    else if str_eq q update_product
    then run_update args db
    else if str_eq q delete_product
    then run_delete args db
    else if str_eq q insert_transaction
    then run_record args db
    else (some refused, db)

unfoldable pub run_reserve : List Value → Db → Result Rows × Db
run_reserve (int quantity ∷ int id ∷ []) db = elim (db.tables.product id) [
  | none ↦ (ok (record { rows = []; failed = none }), db)
  | some p ↦
      if leb_ℤ quantity p.stock
      then (
        ok (record { rows = (int p.price ∷ []) ∷ []; failed = none }),
        record db {
          tables = set_row id (some (record p { stock = p.stock -ℤ quantity })) db.tables;
        },
      )
      else (ok (record { rows = []; failed = none }), db)
]
run_reserve _ db = (err refused, db)

unfoldable pub mem_tx_query : String → List Value → Db → Result Rows × Db
unfolding run_reserve
mem_tx_query q args db = if str_eq q reserve_stock then run_reserve args db else (err refused, db)

unfoldable pub mem_begin : Db → Result Db × Db
mem_begin db = if db.down then (err refused, db) else (ok db, db)

abbrev pub mem_database : Database
mem_database = record {
  Conn = Db;
  Tx = Db;
  query = mem_query;
  exec = mem_exec;
  begin_tx = mem_begin;
  tx_query = mem_tx_query;
  tx_exec = mem_exec;
  commit = λ tx db. (none, tx);
  rollback = λ tx db. db;
  scan_error = λ row. "sql: Scan error";
}

abbrev pub mem_cache : Cache
mem_cache = record {
  Store = String → Option Document;
  get = λ k s. s k;
  set = λ k v ttl s j. if str_eq j k then some v else s j;
  del = λ k s j. if str_eq j k then none else s j;
}

abbrev pub mem_broker : Broker
mem_broker = record { Log = List Message; send = λ m log. (none, log ++ m ∷ []) }

-- The circuit is the error with which it refuses, or none while it is closed.
abbrev pub mem_breaker : Breaker
mem_breaker = record { Circuit = Option GoError; admit = λ c. (c, c); report = λ succeeded c. c }

abbrev pub memory : Services
memory = record {
  database = mem_database;
  cache = mem_cache;
  broker = mem_broker;
  breaker = mem_breaker;
  reads_limit_first = true;
}
