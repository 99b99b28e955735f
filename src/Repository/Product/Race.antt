-- ===== src/Repository/Product/Race.antt =====
-- `GetByID` of repository/product_repo.go in its two parts, the query and the `Set` of the cache,
-- with other requests between them. A write's statement and its `Del`s count as one step.
pub mod Schedules
pub mod Stale
use belajar_backend_go_v.Base.{
  ◌≡◌, ◌≢◌, refl, Option, none, some, inl, inr, List, [], ◌∷◌, ◌++◌, ℤ, IsInt64, arith,
  Option-cases,
}
use belajar_backend_go_v.Json.{json, unmarshal}
use belajar_backend_go_v.Models.{Product, ProductFilter, zero_product}
use belajar_backend_go_v.Models.Codec.{encode_product, decode_product}
use belajar_backend_go_v.Services.{Result, ok, err, ◌>>=◌, int, Services, World, query_row}
use belajar_backend_go_v.Repository.Product.{
  product_key, select_product, scan_product, get_all, get_by_id, create, update, delete,
}

-- No request holds a row of that product.
abbrev pub NoneReads : ℤ → List (ℤ × Product) → Type 0
NoneReads id [] = Unit
NoneReads id ((j, p) ∷ rs) = (j ≢ id) × NoneReads id rs

module _ (S : Services) where
  -- Behind a miss: the row.
  unfoldable pub read_row : ℤ → World S → Result Product × World S
  unfolding scan_product
  read_row id w =
      let (r, db) = query_row S.database select_product (int id ∷ []) w.db in
      (r >>= scan_product S, record w { db = db })

  -- The cache takes what was read.
  unfoldable pub fill : ℤ → Product → World S → World S
  fill id p w = record w {
    store = S.cache.set (product_key id) (json (encode_product p)) 600 w.store;
  }

  unfoldable pub finish : ℤ → Result Product × World S → Result Product × World S
  unfolding fill
  finish id (err e, w) = (err e, w)
  finish id (ok p, w) = (ok p, fill id p w)

  -- With nothing between them the parts are `GetByID`.
  pub get_by_id-parts :
      (id : ℤ) (w : World S)
      → get_by_id S id w ≡ elim (S.cache.get (product_key id) w.store) [
        | some cached ↦ (ok (unmarshal decode_product cached zero_product).0, w)
        | none ↦ finish id (read_row id w)
      ]
  unfolding get_by_id read_row finish
  get_by_id-parts id w = ground arith

  -- The requests that hold a row which is not yet in the cache.
  pub record Busy : Type 0 where
    pub world : World S
    pub reading : List (ℤ × Product)

  pub data Change : Type 0 where
    to_create to_update : Product → Change
    to_delete : ℤ → Change

  unfoldable pub commit : Change → World S → World S
  commit (to_create p) w = (create S p w).1
  commit (to_update p) w = (update S p w).1
  commit (to_delete id) w = (delete S id w).1

  -- The change is not of a product whose row a request holds. A new product has a new id.
  abbrev pub Spares : Change → List (ℤ × Product) → Type 0
  Spares (to_create p) rs = Unit
  Spares (to_update p) rs = NoneReads p.id rs
  Spares (to_delete id) rs = NoneReads id rs

  pub data Step : Busy → Busy → Type 0 where
    reads :
        (id : ℤ) (p : Product) (b : Busy)
        → IsInt64 id
        → (read_row id b.world).0 ≡ ok p
        → Step b (record { world = (read_row id b.world).1; reading = (id, p) ∷ b.reading })
    fills :
        (id : ℤ) (p : Product) (b : Busy) (before after : List (ℤ × Product))
        → b.reading ≡ before ++ (id, p) ∷ after
        → Step b (record { world = fill id p b.world; reading = before ++ after })
    lists : (f : ProductFilter) (b : Busy) → Step b (record b { world = (get_all S f b.world).1 })
    commits :
        (c : Change) (b : Busy)
        → Spares c b.reading
        → Step b (record b { world = commit c b.world })

  pub data Reach (start : World S) : Busy → Type 0 where
    starts : Reach start (record { world = start; reading = [] })
    then : {b b' : Busy} → Reach start b → Step b b' → Reach start b'
