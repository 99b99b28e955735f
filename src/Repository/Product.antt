-- ===== src/Repository/Product.antt =====
-- repository/product_repo.go: a method takes the state behind the repository and returns the new
-- one. The SQL texts are those of the source.
pub mod Keys
pub mod Coherence
pub mod Reads
pub mod Writes
pub mod Staleness
pub mod Paging
pub mod Race
use text.Mathlib.Text.{◌==◌ as str_eq}
use belajar_backend_go_v.Base.{
  ℕ, Bool, true, false, Option, none, some, List, [], ◌∷◌, ◌++◌, ◌<>◌, String, ℤ, pos, ◌+ℤ◌, ◌*ℤ◌,
  wrap64, if◌then◌else◌,
}
use belajar_backend_go_v.Strconv.{itoa}
use belajar_backend_go_v.Json.{Document, json, unmarshal}
use belajar_backend_go_v.Models.{
  Product, zero_product, ProductFilter, CheckoutRequest, ProductEvent, TaskSendInvoice, get_offset,
  action_create, action_update, action_delete,
}
use belajar_backend_go_v.Models.Codec.{
  encode_product, decode_product, encode_products, decode_products, encode_event, encode_task,
}
use belajar_backend_go_v.Services.{
  GoError, no_rows, open_state, service_unavailable, failure, Result, ok, err, ◌>>=◌, is_ok, Value,
  int, txt, Rows, Database, Services, World, query_row, tx_query_row,
}
use belajar_backend_go_v.Stream.{send_message}

abbrev pub select_products : String
select_products = "SELECT id, name, price, stock FROM products WHERE 1=1"

abbrev pub select_product : String
select_product = "SELECT id, name, price, stock FROM products WHERE id = $1"

abbrev pub insert_product : String
insert_product = "INSERT INTO products (name, price, stock) VALUES ($1, $2, $3) RETURNING id"

abbrev pub update_product : String
update_product = "UPDATE products SET name=$1, price=$2, stock=$3 WHERE id=$4"

abbrev pub delete_product : String
delete_product = "DELETE FROM products WHERE id = $1"

-- The keys of the cache.
unfoldable pub list_key : ProductFilter → String
list_key f =
    "products:page:" <> (itoa f.page <> (":limit:" <> (itoa f.limit <> (":search:" <> f.search))))

unfoldable pub product_key : ℤ → String
product_key id = "product:" <> itoa id

abbrev pub all_key : String
all_key = "products:all"

module _ (S : Services) where
  open S.database use {Conn, Tx, scan_error}

  -- `Scan(&p.ID, &p.Name, &p.Price, &p.Stock)`
  unfoldable pub scan_product : List Value → Result Product
  scan_product (int id ∷ txt name ∷ int price ∷ int stock ∷ []) =
      ok (record { id = id; name = name; price = price; stock = stock })
  scan_product row = err (failure (scan_error row))

  -- `Scan` into one `int`.
  unfoldable pub scan_int : List Value → Result ℤ
  scan_int (int n ∷ []) = ok n
  scan_int row = err (failure (scan_error row))

  -- The statement and its arguments in `GetAll`; `argCounter` is 1, or 2 behind a search.
  unfoldable pub search_clause : ProductFilter → String × List Value × ℤ
  search_clause f = if str_eq f.search "" then (select_products, [], pos 1) else (
    select_products <> (" AND name ILIKE $" <> itoa (pos 1)),
    txt ("%" <> (f.search <> "%")) ∷ [],
    pos 2,
  )

  unfoldable pub build_query : ProductFilter → String × List Value
  unfolding search_clause
  build_query f =
      let (query, args, n) = search_clause f in
      let (offset, f') = get_offset f in
      let limit : ℤ = if S.reads_limit_first then f.limit else f'.limit in
      (
        query <> (" LIMIT $" <> (itoa n <> (" OFFSET $" <> itoa (n +ℤ pos 1)))),
        args ++ (int limit ∷ int offset ∷ []),
      )

  -- The loop over `rows.Next()`. It is not followed by a look at `rows.Err()`.
  unfoldable pub collect_rows : List (List Value) → Result (List Product)
  unfolding scan_product
  collect_rows [] = ok []
  collect_rows (row ∷ rows) = do p ← scan_product row; ps ← collect_rows rows; ok (p ∷ ps)

  -- The function that `GetAll` hands to the breaker.
  unfoldable pub fetch_page : ProductFilter → Conn → Result (List Product) × Conn
  unfolding build_query collect_rows
  fetch_page f c =
      let (query, args) = build_query f in
      let (r, c') = S.database.query query args c in (r >>= λ found. collect_rows found.rows, c')

  -- `Breaker.Execute`: the request runs if the breaker admits it.
  unfoldable pub execute {ℓ} :
      {A : Type ℓ} → (Conn → Result A × Conn) → World S → Result A × World S
  execute run w =
      let (refused, circuit) = S.breaker.admit w.circuit in
      elim refused [
        | some e ↦ (err e, record w { circuit = circuit })
        | none ↦
            let (r, db) = run w.db in
            (r, record w { db = db; circuit = S.breaker.report (is_ok r) circuit })
      ]

  unfoldable pub breaker_error : GoError → GoError
  breaker_error open_state = service_unavailable
  breaker_error e = e

  unfoldable pub get_all : ProductFilter → World S → Result (List Product) × World S
  unfolding fetch_page execute breaker_error
  get_all f w = elim (S.cache.get (list_key f) w.store) [
    | some cached ↦ (ok (unmarshal decode_products cached []).0, w)
    | none ↦
        let (r, w') = execute (fetch_page f) w in
        elim r [
          | err e ↦ (err (breaker_error e), w')
          | ok products ↦ (
            ok products,
            record w' {
              store = S.cache.set (list_key f) (json (encode_products products)) 300 w'.store;
            },
          )
        ]
  ]

  unfoldable pub get_by_id : ℤ → World S → Result Product × World S
  unfolding scan_product
  get_by_id id w = elim (S.cache.get (product_key id) w.store) [
    | some cached ↦ (ok (unmarshal decode_product cached zero_product).0, w)
    | none ↦
        let (r, db) = query_row S.database select_product (int id ∷ []) w.db in
        elim (r >>= scan_product) [
          | err e ↦ (err e, record w { db = db })
          | ok p ↦ (
            ok p,
            record w {
              db = db;
              store = S.cache.set (product_key id) (json (encode_product p)) 600 w.store;
            },
          )
        ]
  ]

  -- An event that cannot be sent is only logged.
  unfoldable pub send_event : String → Product → World S → World S
  send_event action p w =
      let (_, log) =
        send_message S.broker "product-events" (itoa p.id)
          (encode_event (record { action = action; product = p })) w.log in
      record w { log = log }

  -- The result is the product with the id that the database gave, which the source writes
  -- through its pointer.
  unfoldable pub create : Product → World S → Result Product × World S
  unfolding scan_int send_event
  create p w =
      let (r, db) =
        query_row S.database insert_product (txt p.name ∷ int p.price ∷ int p.stock ∷ []) w.db in
      elim (r >>= scan_int) [
        | err e ↦ (err e, record w { db = db })
        | ok id ↦
            let p' : Product = record p { id = id } in
            (
              ok p',
              send_event action_create p'
                  (record w { db = db; store = S.cache.del all_key w.store }),
            )
      ]

  -- `Del` of the two keys that a change of a product makes stale.
  unfoldable pub forget : ℤ → World S → World S
  forget id w = record w { store = S.cache.del (product_key id) (S.cache.del all_key w.store) }

  unfoldable pub update : Product → World S → Option GoError × World S
  unfolding forget send_event
  update p w =
      let (failed, db) =
        S.database.exec update_product (txt p.name ∷ int p.price ∷ int p.stock ∷ int p.id ∷ [])
          w.db in
      elim failed [
        | some e ↦ (some e, record w { db = db })
        | none ↦ (none, send_event action_update p (forget p.id (record w { db = db })))
      ]

  unfoldable pub delete : ℤ → World S → Option GoError × World S
  unfolding forget send_event
  delete id w =
      let (failed, db) = S.database.exec delete_product (int id ∷ []) w.db in
      elim failed [
        | some e ↦ (some e, record w { db = db })
        | none ↦ (
          none,
          send_event action_delete (record zero_product { id = id })
              (forget id (record w { db = db })),
        )
      ]
