-- ===== src/Repository/Memory/Laws.antt =====
-- The services in memory meet the contracts.

use mathlib.Core.Option
use belajar_backend_go_v.Base.{
  ◌≡◌, refl, ◌⊎◌, inl, inr, none, some, List, [], ◌∷◌, ℤ, pos, ◌≤ℤ◌, ◌-ℤ◌, arith, Option-cases,
}
use belajar_backend_go_v.Models.{Product}
use belajar_backend_go_v.Services.{
  no_rows, GoError, ok, err, Value, int, txt, query_row, tx_query_row,
}
use belajar_backend_go_v.Repository.Product.{insert_product, update_product, delete_product}
use belajar_backend_go_v.Repository.Contract.{set_row, add_transaction, IsDatabase, IsAtomic}
use belajar_backend_go_v.Repository.Checkout.{reserve_stock, insert_transaction}
use belajar_backend_go_v.Repository.Memory.{
  Db, mem_query, mem_exec, mem_tx_query, mem_begin, mem_database, memory,
}
use belajar_backend_go_v.Repository.Memory.Selects.{
  mem_select-ok, mem_select-none, mem_page-reads, mem_select-reads,
}

pub mem_insert-ok :
    (p : Product) (c : Db) (row : List Value)
    → let (r, c') =
        query_row mem_database insert_product (txt p.name ∷ int p.price ∷ int p.stock ∷ []) c in
      r ≡ ok row
      → (id : ℤ) × (row ≡ int id ∷ [])
        × (c.tables.product id ≡ none)
        × (c'.tables ≡ set_row id (some (record p { id = id })) c.tables)
unfolding query_row mem_query
mem_insert-ok p c row e = elim (Option-cases (c.tables.product c.next)) [
  | inl fresh ↦ (c.next, ground arith, fresh, ground arith)
  | inr (q, taken) ↦ absurd (ground arith)
]

pub mem_update-ok :
    (p : Product) (c : Db)
    → let (failed, c') =
        mem_exec update_product (txt p.name ∷ int p.price ∷ int p.stock ∷ int p.id ∷ []) c in
      failed ≡ none
      → c'.tables ≡ set_row p.id (Option.map (λ _. p) (c.tables.product p.id)) c.tables
unfolding mem_exec
mem_update-ok p c e = ground arith

pub mem_delete-ok :
    (id : ℤ) (c : Db)
    → let (failed, c') = mem_exec delete_product (int id ∷ []) c in
      failed ≡ none → c'.tables ≡ set_row id none c.tables
unfolding mem_exec
mem_delete-ok id c e = ground arith

pub mem_reserve-ok :
    (quantity id : ℤ) (t : Db) (row : List Value)
    → let (r, t') = tx_query_row mem_database reserve_stock (int quantity ∷ int id ∷ []) t in
      r ≡ ok row
      → (p : Product) × (t.tables.product id ≡ some p)
        × (quantity ≤ℤ p.stock)
        × (row ≡ int p.price ∷ [])
        × (t'.tables ≡ set_row id (some (record p { stock = p.stock -ℤ quantity })) t.tables)
unfolding tx_query_row mem_tx_query
mem_reserve-ok quantity id t row e = elim (Option-cases (t.tables.product id)) [
  | inl missing ↦ absurd (ground arith)
  | inr (p, found) ↦ (p, found, ground arith, ground arith, ground arith)
]

pub mem_reserve-none :
    (quantity id : ℤ) (t : Db)
    → (tx_query_row mem_database reserve_stock (int quantity ∷ int id ∷ []) t).0 ≡ err no_rows
    → (t.tables.product id ≡ none)
      ⊎ ((p : Product) × (t.tables.product id ≡ some p) × ¬ (quantity ≤ℤ p.stock))
unfolding tx_query_row mem_tx_query
mem_reserve-none quantity id t e = elim (Option-cases (t.tables.product id)) [
  | inl missing ↦ inl missing
  | inr (p, found) ↦ inr (p, found, λ h. ground arith)
]

pub mem_record-ok :
    (user_id id quantity total : ℤ) (t : Db)
    → let (failed, t') =
        mem_exec insert_transaction (int user_id ∷ int id ∷ int quantity ∷ int total ∷ []) t in
      failed ≡ none
      → (n : ℤ) × (at : ℤ) × (t'.tables
          ≡ add_transaction
              (record {
                id = n;
                user_id = user_id;
                product_id = id;
                quantity = quantity;
                total_price = total;
                created_at = at;
              })
              t.tables)
unfolding mem_exec
mem_record-ok user_id id quantity total t e = (pos 1, pos 0, ground arith)

pub mem_begin-ok : (c t : Db) → (mem_begin c).0 ≡ ok t → t.tables ≡ c.tables
unfolding mem_begin
mem_begin-ok c t e = ground arith

pub mem_begin-reads : (c : Db) → (mem_begin c).1.tables ≡ c.tables
unfolding mem_begin
mem_begin-reads c = ground arith

unfoldable pub memory-IsDatabase : IsDatabase memory
memory-IsDatabase = record {
  tables = λ c. c.tables;
  staged = λ t. t.tables;
  select-ok = mem_select-ok;
  select-none = mem_select-none;
  select-reads = mem_select-reads;
  page-reads = mem_page-reads;
  insert-ok = mem_insert-ok;
  update-ok = mem_update-ok;
  delete-ok = mem_delete-ok;
  begin-ok = mem_begin-ok;
  begin-reads = mem_begin-reads;
  reserve-ok = mem_reserve-ok;
  reserve-none = mem_reserve-none;
  record-ok = mem_record-ok;
  commit-ok = λ t c e. refl;
  rollback-restores = λ t c. refl;
}

mem_insert-failed :
    (p : Product) (c : Db) (e : GoError)
    → let (r, c') =
        query_row mem_database insert_product (txt p.name ∷ int p.price ∷ int p.stock ∷ []) c in
      r ≡ err e → c'.tables ≡ c.tables
unfolding query_row mem_query
mem_insert-failed p c e h = elim (Option-cases (c.tables.product c.next)) [
  | inl fresh ↦ ground arith
  | inr (q, taken) ↦ ground arith
]

mem_update-failed :
    (p : Product) (c : Db) (e : GoError)
    → let (failed, c') =
        mem_exec update_product (txt p.name ∷ int p.price ∷ int p.stock ∷ int p.id ∷ []) c in
      failed ≡ some e → c'.tables ≡ c.tables
unfolding mem_exec
mem_update-failed p c e h = ground arith

mem_delete-failed :
    (id : ℤ) (c : Db) (e : GoError)
    → let (failed, c') = mem_exec delete_product (int id ∷ []) c in
      failed ≡ some e → c'.tables ≡ c.tables
unfolding mem_exec
mem_delete-failed id c e h = ground arith

pub memory-IsAtomic : IsAtomic memory memory-IsDatabase
unfolding memory-IsDatabase
memory-IsAtomic = record {
  insert-failed = mem_insert-failed;
  update-failed = mem_update-failed;
  delete-failed = mem_delete-failed;
  commit-failed = λ t c e h. cc;
}
