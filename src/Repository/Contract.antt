-- ===== src/Repository/Contract.antt =====
-- What the SQL statements of repository/ do to the tables of db/migrations, as far as the code
-- relies on it. One request is followed at a time: nothing else commits while it runs.
use belajar_backend_go_v.Base.{
  ◌≡◌, ◌⊎◌, Option, none, some, List, [], ◌∷◌, ◌++◌, ℤ, ◌-ℤ◌, ◌≤ℤ◌, eqb_ℤ, if◌then◌else◌,
}
use mathlib.Core.Option
use belajar_backend_go_v.Models.{Product, ProductFilter, Transaction}
use belajar_backend_go_v.Models.RoundTrip.{IsProduct}
use belajar_backend_go_v.Services.{
  GoError, no_rows, ok, err, Value, int, txt, Services, query_row, tx_query_row,
}
use belajar_backend_go_v.Repository.Product.{
  select_product, insert_product, update_product, delete_product, build_query,
}
use belajar_backend_go_v.Repository.Checkout.{reserve_stock, insert_transaction}

-- The tables `products`, by primary key, and `transactions`, in order of insertion.
pub record Tables : Type 0 where
  pub product : ℤ → Option Product
  pub transactions : List Transaction

abbrev pub set_row : ℤ → Option Product → Tables → Tables
set_row id row t = record t { product = λ j. if eqb_ℤ j id then row else t.product j }

abbrev pub add_transaction : Transaction → Tables → Tables
add_transaction row t = record t { transactions = t.transactions ++ row ∷ [] }

-- The columns id, name, price, stock of a row.
abbrev pub product_row : Product → List Value
product_row p = int p.id ∷ txt p.name ∷ int p.price ∷ int p.stock ∷ []

module _ (S : Services) where
  open S.database use {Conn, Tx, exec, begin_tx, tx_exec, commit, rollback}

  pub record IsDatabase : Type 0 where
    pub tables : Conn → Tables
    -- what a transaction sees
    pub staged : Tx → Tables
    -- the primary key is the one asked for, and the columns are `int`s
    pub select-ok :
        (id : ℤ) (c : Conn) (row : List Value)
        → (query_row S.database select_product (int id ∷ []) c).0 ≡ ok row
        → (p : Product) × ((tables c).product id ≡ some p)
          × (row ≡ product_row p)
          × (p.id ≡ id)
          × IsProduct p
    pub select-none :
        (id : ℤ) (c : Conn)
        → (query_row S.database select_product (int id ∷ []) c).0 ≡ err no_rows
        → (tables c).product id ≡ none
    pub select-reads :
        (id : ℤ) (c : Conn)
        → tables (query_row S.database select_product (int id ∷ []) c).1 ≡ tables c
    pub page-reads :
        (f : ProductFilter) (c : Conn)
        → let (query, args) = build_query S f in tables (S.database.query query args c).1 ≡ tables c
    pub insert-ok :
        (p : Product) (c : Conn) (row : List Value)
        → let (r, c') =
            query_row S.database insert_product (txt p.name ∷ int p.price ∷ int p.stock ∷ []) c in
          r ≡ ok row
          → (id : ℤ) × (row ≡ int id ∷ [])
            × ((tables c).product id ≡ none)
            × (tables c' ≡ set_row id (some (record p { id = id })) (tables c))
    pub update-ok :
        (p : Product) (c : Conn)
        → let (failed, c') =
            exec update_product (txt p.name ∷ int p.price ∷ int p.stock ∷ int p.id ∷ []) c in
          failed ≡ none
          → tables c' ≡ set_row p.id (Option.map (λ _. p) ((tables c).product p.id)) (tables c)
    pub delete-ok :
        (id : ℤ) (c : Conn)
        → let (failed, c') = exec delete_product (int id ∷ []) c in
          failed ≡ none → tables c' ≡ set_row id none (tables c)
    pub begin-ok : (c : Conn) (t : Tx) → (begin_tx c).0 ≡ ok t → staged t ≡ tables c
    pub begin-reads : (c : Conn) → tables (begin_tx c).1 ≡ tables c
    pub reserve-ok :
        (quantity id : ℤ) (t : Tx) (row : List Value)
        → let (r, t') = tx_query_row S.database reserve_stock (int quantity ∷ int id ∷ []) t in
          r ≡ ok row
          → (p : Product) × ((staged t).product id ≡ some p)
            × (quantity ≤ℤ p.stock)
            × (row ≡ int p.price ∷ [])
            × (staged t' ≡ set_row id (some (record p { stock = p.stock -ℤ quantity })) (staged t))
    pub reserve-none :
        (quantity id : ℤ) (t : Tx)
        → (tx_query_row S.database reserve_stock (int quantity ∷ int id ∷ []) t).0 ≡ err no_rows
        → ((staged t).product id ≡ none)
          ⊎ ((p : Product) × ((staged t).product id ≡ some p) × ¬ (quantity ≤ℤ p.stock))
    pub record-ok :
        (user_id id quantity total : ℤ) (t : Tx)
        → let (failed, t') =
            tx_exec insert_transaction (int user_id ∷ int id ∷ int quantity ∷ int total ∷ []) t in
          failed ≡ none
          → (n : ℤ) × (at : ℤ) × (staged t'
              ≡ add_transaction
                  (record {
                    id = n;
                    user_id = user_id;
                    product_id = id;
                    quantity = quantity;
                    total_price = total;
                    created_at = at;
                  })
                  (staged t))
    pub commit-ok : (t : Tx) (c : Conn) → (commit t c).0 ≡ none → tables (commit t c).1 ≡ staged t
    pub rollback-restores : (t : Tx) (c : Conn) → tables (rollback t c) ≡ tables c

  -- A statement or a commit that returns an error has changed nothing. A connection that breaks
  -- at the wrong moment can violate this, so it is a hypothesis of its own.
  pub record IsAtomic (L : IsDatabase) : Type 0 where
    pub insert-failed :
        (p : Product) (c : Conn) (e : GoError)
        → let (r, c') =
            query_row S.database insert_product (txt p.name ∷ int p.price ∷ int p.stock ∷ []) c in
          r ≡ err e → L.tables c' ≡ L.tables c
    pub update-failed :
        (p : Product) (c : Conn) (e : GoError)
        → let (failed, c') =
            exec update_product (txt p.name ∷ int p.price ∷ int p.stock ∷ int p.id ∷ []) c in
          failed ≡ some e → L.tables c' ≡ L.tables c
    pub delete-failed :
        (id : ℤ) (c : Conn) (e : GoError)
        → let (failed, c') = exec delete_product (int id ∷ []) c in
          failed ≡ some e → L.tables c' ≡ L.tables c
    pub commit-failed :
        (t : Tx) (c : Conn) (e : GoError)
        → (commit t c).0 ≡ some e
        → L.tables (commit t c).1 ≡ L.tables c
