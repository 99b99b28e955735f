-- ===== src/Repository/Checkout/Atomic.antt =====
-- What a checkout has done to the tables, by how it ended.
use belajar_backend_go_v.Base.{
  ◌≡◌, refl, inl, inr, none, some, [], ◌∷◌, String, ℤ, ◌-ℤ◌, ◌*ℤ◌, ◌≤ℤ◌, wrap64, arith,
}
use belajar_backend_go_v.Models.{Product, Transaction, CheckoutRequest}
use belajar_backend_go_v.Services.{
  GoError, Result, ok, err, int, Services, World, tx_query_row, Result-cases,
}
use belajar_backend_go_v.Repository.Product.{scan_int}
use belajar_backend_go_v.Repository.Contract.{
  Tables, set_row, add_transaction, IsDatabase, IsAtomic,
}
use belajar_backend_go_v.Repository.Checkout.{
  reserve_stock, record_sale, sell, in_transaction, checkout, send_invoice,
}

-- The tables before and after a sale: the product was there with stock enough, its stock alone has
-- gone down, and one row that records the sale has been added.
pub record Sold (user_id : ℤ) (req : CheckoutRequest) (total : ℤ) (before after : Tables)
    : Type 0 where
  pub product : Product
  pub row : Transaction
  pub found : before.product req.product_id ≡ some product
  pub enough : req.quantity ≤ℤ product.stock
  pub price : total ≡ wrap64 (product.price *ℤ req.quantity)
  pub by : row.user_id ≡ user_id
  pub of : row.product_id ≡ req.product_id
  pub units : row.quantity ≡ req.quantity
  pub paid : row.total_price ≡ total
  pub changed :
      after
      ≡ add_transaction row (
          set_row req.product_id
            (some (record product { stock = product.stock -ℤ req.quantity }))
            before)

-- The row that a sale adds; the database chooses its id and its time.
abbrev pub sale_row : ℤ → CheckoutRequest → ℤ → ℤ → ℤ → Transaction
sale_row user_id req total n at = record {
  id = n;
  user_id = user_id;
  product_id = req.product_id;
  quantity = req.quantity;
  total_price = total;
  created_at = at;
}

module _ (S : Services) (L : IsDatabase S) where
  open S.database use {Conn, Tx, tx_exec}

  record_sale_ok :
      (user_id : ℤ) (req : CheckoutRequest) (price : ℤ) (t : Tx) (total : ℤ)
      → let (r, t') = record_sale S user_id req price t in
        r ≡ ok total
        → (n : ℤ) × (at : ℤ) × (total ≡ wrap64 (price *ℤ req.quantity))
          × (L.staged t' ≡ add_transaction (sale_row user_id req total n at) (L.staged t))
  unfolding record_sale
  record_sale_ok user_id req price t total e =
      let (n, at, staged) =
        L.record-ok user_id req.product_id req.quantity (wrap64 (price *ℤ req.quantity)) t
          (ground arith) in
      (n, at, ground arith, ground (arith, staged))

  sell-Sold :
      (user_id : ℤ) (req : CheckoutRequest) (t : Tx) (total : ℤ)
      → let (r, t') = sell S user_id req t in
        r ≡ ok total → Sold user_id req total (L.staged t) (L.staged t')
  unfolding sell
  sell-Sold user_id req t total e =
      elim (Result-cases
        (tx_query_row S.database reserve_stock (int req.quantity ∷ int req.product_id ∷ []) t).0) [
          | inr (f, failed) ↦ absurd (ground arith)
          | inl (row, reserved) ↦
              let (p, found, enough, shape, staged) =
                L.reserve-ok req.quantity req.product_id t row reserved in
              let (n, at, price, added) =
                record_sale_ok user_id req p.price
                  (tx_query_row S.database reserve_stock
                    (int req.quantity ∷ int req.product_id ∷ []) t).1
                  total ground (arith, shape, scan_int) in
              record {
                product = p;
                row = sale_row user_id req total n at;
                found = found;
                enough = enough;
                price = price;
                by = refl;
                of = refl;
                units = refl;
                paid = refl;
                changed = ground arith;
              }
        ]

  -- A transaction that ends well has done to the tables what its body did to its view of them.
  in_transaction_ok :
      (body : Tx → Result ℤ × Tx) (c : Conn) (total : ℤ)
      → let (r, c') = in_transaction S body c in
        r ≡ ok total
        → (t : Tx) × (L.staged t ≡ L.tables c)
          × ((body t).0 ≡ ok total)
          × (L.tables c' ≡ L.staged (body t).1)
  unfolding in_transaction
  in_transaction_ok body c total e = elim (Result-cases (S.database.begin_tx c).0) [
    | inr (f, refused) ↦ absurd (ground arith)
    | inl (t, begun) ↦ (
      t,
      L.begin-ok c t begun,
      ground arith,
      ground (arith, L.commit-ok (body t).1 (S.database.begin_tx c).1),
    )
  ]

  module _ (A : IsAtomic S L) where
    in_transaction_failed :
        (body : Tx → Result ℤ × Tx) (c : Conn) (e : GoError)
        → let (r, c') = in_transaction S body c in r ≡ err e → L.tables c' ≡ L.tables c
    unfolding in_transaction
    in_transaction_failed body c e h = elim (Result-cases (S.database.begin_tx c).0) [
      | inr (f, refused) ↦ ground (arith, L.begin-reads c)
      | inl (t, begun) ↦ ground (
        arith,
        L.begin-reads c,
        L.rollback-restores (body t).1 (S.database.begin_tx c).1,
        A.commit-failed (body t).1 (S.database.begin_tx c).1 e,
      )
    ]

  -- A checkout that returns no error has sold: the stock that was there sufficed and went down by
  -- the quantity, one transaction with the price times the quantity (as an `int`) was recorded, no
  -- other row changed, the task with that total was handed to the broker, and the cache and the
  -- breaker were left alone.
  pub checkout-Sold :
      (user_id : ℤ) (user_email : String) (req : CheckoutRequest) (w : World S)
      → let (failed, w') = checkout S user_id user_email req w in
        failed ≡ none
        → (total : ℤ) × Sold user_id req total (L.tables w.db) (L.tables w'.db)
          × (w'.log ≡ (send_invoice S user_id user_email req total w.log).1)
          × (w'.store ≡ w.store)
          × (w'.circuit ≡ w.circuit)
  unfolding checkout send_invoice
  checkout-Sold user_id user_email req w e =
      elim (Result-cases (in_transaction S (sell S user_id req) w.db).0) [
        | inr (f, failed) ↦ absurd (ground arith)
        | inl (total, done) ↦
            let (t, seen, sold, committed) =
              in_transaction_ok (sell S user_id req) w.db total done in
            let after : L.tables (checkout S user_id user_email req w).1.db
                ≡ L.staged (sell S user_id req t).1 =
              ground (arith, committed) in
            (
              total,
              rw (after, ← seen) (sell-Sold user_id req t total sold),
              ground arith,
              ground arith,
              ground arith,
            )
      ]

  -- A checkout that returns an error has changed no table, sent nothing and left the cache alone.
  pub checkout_failed :
      IsAtomic S L
      → (user_id : ℤ) (user_email : String) (req : CheckoutRequest) (w : World S) (e : GoError)
      → let (failed, w') = checkout S user_id user_email req w in
        failed ≡ some e
        → (L.tables w'.db ≡ L.tables w.db)
          × (w'.log ≡ w.log)
          × (w'.store ≡ w.store)
          × (w'.circuit ≡ w.circuit)
  unfolding checkout
  checkout_failed A user_id user_email req w e h =
      elim (Result-cases (in_transaction S (sell S user_id req) w.db).0) [
        | inr (f, failed) ↦ ground (arith, in_transaction_failed A (sell S user_id req) w.db f)
        | inl (total, done) ↦ absurd (ground arith)
      ]
