-- ===== src/Repository/Checkout.antt =====
-- `Checkout` of repository/product_repo.go: one transaction that takes the stock and records the
-- sale, and the invoice task that follows it.
pub mod Atomic
pub mod Conservation
pub mod Concurrent
use belajar_backend_go_v.Base.{Option, none, some, List, [], ◌∷◌, String, ℤ, ◌*ℤ◌, wrap64}
use belajar_backend_go_v.Strconv.{itoa}
use belajar_backend_go_v.Models.{CheckoutRequest, TaskSendInvoice}
use belajar_backend_go_v.Models.Codec.{encode_task}
use belajar_backend_go_v.Services.{
  GoError, no_rows, failure, Result, ok, err, ◌>>=◌, Value, int, Services, World, tx_query_row,
}
use belajar_backend_go_v.Stream.{send_message}
use belajar_backend_go_v.Repository.Product.{scan_int}

abbrev pub reserve_stock : String
reserve_stock =
    "\n\t\tUPDATE products \n\t\tSET stock = stock - $1 \n\t\tWHERE id = $2 AND stock >= $1 \n\t\tRETURNING price"

abbrev pub insert_transaction : String
insert_transaction =
    "\n\t\tINSERT INTO transactions (user_id, product_id, quantity, total_price) \n\t\tVALUES ($1, $2, $3, $4)"

abbrev pub out_of_stock : GoError
out_of_stock = failure "stok tidak mencukupi atau produk tidak ditemukan"

-- What the code makes of the error of the first statement.
unfoldable pub reserve_error : GoError → GoError
reserve_error no_rows = out_of_stock
reserve_error e = e

module _ (S : Services) where
  open S.database use {Conn, Tx}

  -- The second statement, with the total price, an `int`.
  unfoldable pub record_sale : ℤ → CheckoutRequest → ℤ → Tx → Result ℤ × Tx
  record_sale user_id req price tx =
      let total = wrap64 (price *ℤ req.quantity) in
      let (failed, tx') =
        S.database.tx_exec insert_transaction
          (int user_id ∷ int req.product_id ∷ int req.quantity ∷ int total ∷ []) tx in
      elim failed [ some e ↦ (err e, tx') | none ↦ (ok total, tx') ]

  -- What stands between `BeginTx` and `Commit`; the result is the total price.
  unfoldable pub sell : ℤ → CheckoutRequest → Tx → Result ℤ × Tx
  unfolding reserve_error scan_int record_sale
  sell user_id req tx =
      let (r, tx') =
        tx_query_row S.database reserve_stock (int req.quantity ∷ int req.product_id ∷ []) tx in
      elim (r >>= scan_int S) [
        | err e ↦ (err (reserve_error e), tx')
        | ok price ↦ record_sale user_id req price tx'
      ]

  -- The deferred `tx.Rollback()` runs where the function returns before `Commit`. After `Commit`
  -- it only returns `sql.ErrTxDone`, also where `Commit` failed.
  unfoldable pub in_transaction : (Tx → Result ℤ × Tx) → Conn → Result ℤ × Conn
  in_transaction body c =
      let (begun, c1) = S.database.begin_tx c in
      elim begun [
        | err e ↦ (err e, c1)
        | ok tx ↦
            let (r, tx1) = body tx in
            elim r [
              | err e ↦ (err e, S.database.rollback tx1 c1)
              | ok total ↦
                  let (failed, c2) = S.database.commit tx1 c1 in
                  elim failed [ some e ↦ (err e, c2) | none ↦ (ok total, c2) ]
            ]
      ]

  unfoldable pub invoice_task : ℤ → String → CheckoutRequest → ℤ → TaskSendInvoice
  invoice_task user_id user_email req total = record {
    user_id = user_id;
    email = user_email;
    product_id = req.product_id;
    quantity = req.quantity;
    total_price = total;
  }

  unfoldable pub send_invoice :
      ℤ → String → CheckoutRequest → ℤ → S.broker.Log → Option GoError × S.broker.Log
  send_invoice user_id user_email req total log =
      send_message S.broker "checkout-events" (itoa user_id)
        (encode_task (invoice_task user_id user_email req total)) log

  -- A task that cannot be sent is only logged.
  unfoldable pub checkout : ℤ → String → CheckoutRequest → World S → Option GoError × World S
  unfolding sell in_transaction send_invoice
  checkout user_id user_email req w =
      let (r, db) = in_transaction (sell user_id req) w.db in
      elim r [
        | err e ↦ (some e, record w { db = db })
        | ok total ↦
            let (_, log) = send_invoice user_id user_email req total w.log in
            (none, record w { db = db; log = log })
      ]
