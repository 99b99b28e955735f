-- ===== src/Repository/Memory/Selects.antt =====
-- The SELECTs of repository/product_repo.go on the tables in memory.
use package.text.Mathlib.TextEquality.{eq_iff}
use package.text.Mathlib.Text.{◌==◌ as str_eq}
use package.text.Mathlib.TextLemmas.{cons-append}
use belajar_backend_go_v.Base.{
  ◌≡◌, ◌≢◌, refl, inl, inr, Option, none, some, List, [], ◌∷◌, String, ℤ, pos, arith, Option-cases,
  eqb_ℤ_iff, ap, ◌<>◌, Bool-cases,
}
use belajar_backend_go_v.Strconv.{itoa}
use belajar_backend_go_v.Models.{Product, ProductFilter}
use belajar_backend_go_v.Models.RoundTrip.{IsProduct}
use belajar_backend_go_v.Services.{no_rows, ok, err, Value, int, query_row, first_of_result}
use belajar_backend_go_v.Repository.Product.{select_product, insert_product}
use belajar_backend_go_v.Repository.Product.{build_query, search_clause, select_products}
use belajar_backend_go_v.Repository.Product.Keys.{code_at, IsInside}
use belajar_backend_go_v.Repository.Contract.{product_row}
use belajar_backend_go_v.Repository.Memory.{
  Db, mem_query, mem_database, memory, row_answer, run_select,
}

row_answer_ok :
    (id : ℤ) (o : Option Product) (row : List Value)
    → first_of_result (row_answer id o) ≡ ok row
    → (p : Product) × (o ≡ some p) × (row ≡ product_row p) × (p.id ≡ id) × IsProduct p
unfolding first_of_result
row_answer_ok id none row e = cc
row_answer_ok id (some p) row e =
    (p, refl, ground arith, ground (arith, eqb_ℤ_iff p.id id), ground arith)

pub mem_select-ok :
    (id : ℤ) (c : Db) (row : List Value)
    → (query_row mem_database select_product (int id ∷ []) c).0 ≡ ok row
    → (p : Product) × (c.tables.product id ≡ some p)
      × (row ≡ product_row p)
      × (p.id ≡ id)
      × IsProduct p
unfolding query_row mem_query
mem_select-ok id c row e = row_answer_ok id (c.tables.product id) row (ground arith)

pub mem_select-none :
    (id : ℤ) (c : Db)
    → (query_row mem_database select_product (int id ∷ []) c).0 ≡ err no_rows
    → c.tables.product id ≡ none
unfolding query_row mem_query
mem_select-none id c e = elim (Option-cases (c.tables.product id)) [
  | inl missing ↦ missing
  | inr (p, found) ↦ ground arith
]

run_select-reads : (args : List Value) (c : Db) → (run_select args c).1 ≡ c
unfolding run_select
run_select-reads (int id ∷ []) c = refl
run_select-reads _ c = refl

mem_query-reads :
    (q : String) (args : List Value) (c : Db) → q ≢ insert_product → (mem_query q args c).1 ≡ c
unfolding mem_query
mem_query-reads q args c ne = ground (arith, eq_iff q insert_product, run_select-reads args c)

-- A text that begins with "S" still does with more behind it.
first_code :
    (s t : String) → IsInside 0 s → IsInside 0 (s <> t) × (code_at 0 (s <> t) ≡ code_at 0 s)
first_code String.[] t h = absurd h
first_code (String.◌∷◌ c s) t h = rw cons-append (tt, refl)

search_clause-code :
    (f : ProductFilter)
    → IsInside 0 (search_clause memory f).0 × (code_at 0 (search_clause memory f).0 ≡ b'S')
unfolding search_clause
search_clause-code f = elim (Bool-cases (str_eq f.search "")) [
  | inl plain ↦ rw plain (tt, refl)
  | inr some_search ↦
      rw some_search (first_code select_products (" AND name ILIKE $" <> itoa (pos 1)) tt)
]

-- The statement of `GetAll` is no insertion.
build_query-ne-insert : (f : ProductFilter) → (build_query memory f).0 ≢ insert_product
unfolding build_query
build_query-ne-insert f e =
    let (inside, code) = search_clause-code f in
    omega (arith, (first_code (search_clause memory f).0 _ inside).1, code, ap (code_at 0) e)

pub mem_page-reads :
    (f : ProductFilter) (c : Db)
    → let (query, args) = build_query memory f in (mem_query query args c).1.tables ≡ c.tables
mem_page-reads f c =
    let (query, args) = build_query memory f in
    ap (λ (db : Db). db.tables) (mem_query-reads query args c (build_query-ne-insert f))

pub mem_select-reads :
    (id : ℤ) (c : Db) → (query_row mem_database select_product (int id ∷ []) c).1.tables ≡ c.tables
unfolding query_row mem_query
mem_select-reads id c = ground arith
