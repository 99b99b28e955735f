-- ===== src/Repository/Checkout/Concurrent/Contract.antt =====
-- What PostgreSQL does with the statements of `Checkout` in transactions that are open at once, at
-- the isolation level of the program, read committed: what a transaction has done shows when it
-- commits, and a write waits while another transaction has changed the row.
use mathlib.Core.Option
use belajar_backend_go_v.Base.{◌≡◌, ◌≢◌, ◌⊎◌, none, some, List, [], ◌∷◌, ◌++◌, ℕ, ℤ, ◌-ℤ◌, ◌≤ℤ◌}
use belajar_backend_go_v.Models.{Product, Transaction}
use belajar_backend_go_v.Services.{ok, int, first_of_result}
use belajar_backend_go_v.Repository.Contract.{Tables, set_row, add_transaction}
use belajar_backend_go_v.Repository.Checkout.{reserve_stock, insert_transaction}
use belajar_backend_go_v.Repository.Checkout.Concurrent.{
  SharedDatabase, Write, replace, remove, statement,
}

-- What a transaction has done and not committed.
pub data Change : Type 0 where
  -- The stock of a product less a quantity.
  take : ℤ → ℤ → Change
  add : Transaction → Change

abbrev pub apply : List Change → Tables → Tables
apply [] t = t
apply (take id quantity ∷ changes) t = apply changes (
    set_row id
      (Option.map {A = Product} (λ p. record p { stock = p.stock -ℤ quantity }) (t.product id)) t)
apply (add row ∷ changes) t = apply changes (add_transaction row t)

-- The row of a product is among what has been changed.
abbrev pub Holds : ℤ → List Change → Type 0
Holds id [] = ⊥
Holds id (take j quantity ∷ changes) = (j ≡ id) ⊎ Holds id changes
Holds id (add row ∷ changes) = Holds id changes

-- What a write does to the tables.
abbrev pub target : Write → ℤ
target (replace p) = p.id
target (remove id) = id

abbrev pub apply_write : Write → Tables → Tables
apply_write (replace p) t = set_row p.id (Option.map (λ _. p) (t.product p.id)) t
apply_write (remove id) t = set_row id none t

module _ (D : SharedDatabase) where
  open D use {Db, begin_tx, tx_query, tx_exec, commit, rollback}

  pub record IsShared : Type 0 where
    -- what is committed
    pub tables : Db → Tables
    pub pending : ℕ → Db → List Change
    pub begin-tables : (n : ℕ) (d : Db) → tables (begin_tx n d).1 ≡ tables d
    pub begin-pending : (n m : ℕ) (d : Db) → pending m (begin_tx n d).1 ≡ pending m d
    pub reserve-tables :
        (n : ℕ) (quantity id : ℤ) (d : Db)
        → tables (tx_query n reserve_stock (int quantity ∷ int id ∷ []) d).1 ≡ tables d
    pub reserve-others :
        (n m : ℕ) (quantity id : ℤ) (d : Db)
        → m ≢ n
        → pending m (tx_query n reserve_stock (int quantity ∷ int id ∷ []) d).1 ≡ pending m d
    -- as the first statement of the transaction
    pub reserve-ok :
        (n : ℕ) (quantity id price : ℤ) (d : Db)
        → pending n d ≡ []
        → let (r, d') = tx_query n reserve_stock (int quantity ∷ int id ∷ []) d in
          first_of_result r ≡ ok (int price ∷ [])
          → (p : Product) × ((tables d).product id ≡ some p)
            × (quantity ≤ℤ p.stock)
            × (price ≡ p.price)
            × (pending n d' ≡ take id quantity ∷ [])
            × ((m : ℕ) → m ≢ n → ¬ (Holds id (pending m d)))
    pub record-tables :
        (n : ℕ) (user_id id quantity total : ℤ) (d : Db)
        → tables
            (tx_exec n insert_transaction
              (int user_id ∷ int id ∷ int quantity ∷ int total ∷ [])
              d).1
          ≡ tables d
    pub record-others :
        (n m : ℕ) (user_id id quantity total : ℤ) (d : Db)
        → m ≢ n
        → pending m
            (tx_exec n insert_transaction
              (int user_id ∷ int id ∷ int quantity ∷ int total ∷ [])
              d).1
          ≡ pending m d
    pub record-ok :
        (n : ℕ) (user_id id quantity total : ℤ) (d : Db)
        → let (failed, d') =
            tx_exec n insert_transaction (int user_id ∷ int id ∷ int quantity ∷ int total ∷ []) d in
          failed ≡ none
          → (k : ℤ) × (at : ℤ) × (pending n d'
              ≡ pending n d
                ++ add (record {
                  id = k;
                  user_id = user_id;
                  product_id = id;
                  quantity = quantity;
                  total_price = total;
                  created_at = at;
                })
                  ∷ [])
    pub commit-others : (n m : ℕ) (d : Db) → m ≢ n → pending m (commit n d).1 ≡ pending m d
    pub commit-ends : (n : ℕ) (d : Db) → pending n (commit n d).1 ≡ []
    pub commit-tables :
        (n : ℕ) (d : Db)
        → let (failed, d') = commit n d in
          ((failed ≡ none) × (tables d' ≡ apply (pending n d) (tables d)))
          ⊎ ((failed ≢ none) × (tables d' ≡ tables d))
    pub write-tables :
        (x : Write) (d : Db)
        → let (failed, d') = D.exec (statement x).0 (statement x).1 d in
          ((failed ≡ none)
            × (tables d' ≡ apply_write x (tables d))
            × ((m : ℕ) → ¬ (Holds (target x) (pending m d))))
          ⊎ ((failed ≢ none) × (tables d' ≡ tables d))
    pub write-pending :
        (x : Write) (m : ℕ) (d : Db)
        → pending m (D.exec (statement x).0 (statement x).1 d).1 ≡ pending m d
    pub rollback-tables : (n : ℕ) (d : Db) → tables (rollback n d) ≡ tables d
    pub rollback-others : (n m : ℕ) (d : Db) → m ≢ n → pending m (rollback n d) ≡ pending m d
    pub rollback-ends : (n : ℕ) (d : Db) → pending n (rollback n d) ≡ []
