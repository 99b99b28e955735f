-- ===== src/Repository/Checkout/Conservation.antt =====
-- Over any run of checkouts no unit of stock appears or vanishes.
use belajar_backend_go_v.Base.{
  ◌⊎◌, ◌∙◌, ◌≡◌, refl, ap, inl, inr, true, false, some, List, [], ◌∷◌, ◌++◌, String, ℤ, pos, ◌+ℤ◌,
  ◌-ℤ◌, ◌≤ℤ◌, eqb_ℤ, eqb_ℤ_iff, if◌then◌else◌, int_laws, arith, Option-cases, Bool-cases,
}
use belajar_backend_go_v.Models.{Product, Transaction, CheckoutRequest}
use belajar_backend_go_v.Services.{Services, World}
use belajar_backend_go_v.Repository.Contract.{Tables, IsDatabase, IsAtomic}
use belajar_backend_go_v.Repository.Checkout.{checkout}
use belajar_backend_go_v.Repository.Checkout.Atomic.{Sold, checkout-Sold, checkout_failed}

-- The units of a product that a list of transactions has sold.
unfoldable pub units_sold : ℤ → List Transaction → ℤ
units_sold id [] = pos 0
units_sold id (row ∷ rows) =
    (if eqb_ℤ row.product_id id then row.quantity else pos 0) +ℤ units_sold id rows

units_sold-append :
    (id : ℤ) (rows : List Transaction) (row : Transaction)
    → units_sold id (rows ++ row ∷ [])
      ≡ units_sold id rows +ℤ (if eqb_ℤ row.product_id id then row.quantity else pos 0)
unfolding units_sold
units_sold-append id [] row = omega int_laws
units_sold-append id (r ∷ rows) row = rw (units_sold-append id rows row) (omega int_laws)

-- What two states of the tables have in common for a product with its row `p` at first: the row is
-- there, at the same name and price, stock and units sold add up to the same, and the stock is not
-- negative unless it is what it was.
pub record Kept (id : ℤ) (p : Product) (before after : Tables) : Type 0 where
  pub product : Product
  pub found : after.product id ≡ some product
  pub name : product.name ≡ p.name
  pub price : product.price ≡ p.price
  pub balance :
      product.stock +ℤ units_sold id after.transactions
      ≡ p.stock +ℤ units_sold id before.transactions
  pub floor : (pos 0 ≤ℤ product.stock) ⊎ (product.stock ≡ p.stock)

unfoldable pub Kept-refl :
    (id : ℤ) (p : Product) (t : Tables) → t.product id ≡ some p → Kept id p t t
Kept-refl id p t e = record {
  product = p;
  found = e;
  name = refl;
  price = refl;
  balance = refl;
  floor = inr refl;
}

pub floor_trans :
    (a b c : ℤ) → (pos 0 ≤ℤ b) ⊎ (b ≡ a) → (pos 0 ≤ℤ c) ⊎ (c ≡ b) → (pos 0 ≤ℤ c) ⊎ (c ≡ a)
floor_trans a b c h (inl nonneg) = inl nonneg
floor_trans a b c (inl nonneg) (inr same) = inl (rw same nonneg)
floor_trans a b c (inr old) (inr same) = inr (same ∙ old)

unfoldable pub Kept-trans :
    (id : ℤ) (p : Product) (a b c : Tables) (k : Kept id p a b)
    → Kept id k.product b c
    → Kept id p a c
Kept-trans id p a b c k l = record {
  product = l.product;
  found = l.found;
  name = cc (l.name, k.name);
  price = cc (l.price, k.price);
  balance = cc (l.balance, k.balance);
  floor = floor_trans p.stock k.product.stock l.product.stock k.floor l.floor;
}

-- A sale keeps it, of the product that it sells and of every other.
pub Sold-Kept :
    (user_id : ℤ) (req : CheckoutRequest) (total : ℤ) (before after : Tables) (id : ℤ) (p : Product)
    → Sold user_id req total before after
    → before.product id ≡ some p
    → Kept id p before after
Sold-Kept user_id req total before after id p s e = elim (Bool-cases (eqb_ℤ id req.product_id)) [
  | inl same ↦
      let here : id ≡ req.product_id = (eqb_ℤ_iff id req.product_id).0 same in
      let old : s.product ≡ p = cc (s.found, here, e) in
      let hit : eqb_ℤ s.row.product_id id ≡ true = cc (s.of, here, same) in
      rw s.changed (record {
        product = record s.product { stock = s.product.stock -ℤ req.quantity };
        found = rw same;
        name = ap (λ (q : Product). q.name) old;
        price = ap (λ (q : Product). q.price) old;
        balance =
            rw (units_sold-append id before.transactions s.row, hit, s.units, ← old)
              (omega int_laws);
        floor = inl (omega (int_laws, s.enough));
      })
  | inr other ↦
      let miss : eqb_ℤ s.row.product_id id ≡ false = ground (arith, s.of, other) in
      rw s.changed (record {
        product = p;
        found = rw other e;
        name = refl;
        price = refl;
        balance = rw (units_sold-append id before.transactions s.row, miss) (omega int_laws);
        floor = inr refl;
      })
]

-- One request to `Checkout`.
pub record Order : Type 0 where
  pub user_id : ℤ
  pub email : String
  pub request : CheckoutRequest

module _ (S : Services) where
  -- The requests of a list, served one after the other; some may fail.
  pub checkouts : List Order → World S → World S
  checkouts [] w = w
  checkouts (o ∷ os) w = checkouts os (checkout S o.user_id o.email o.request w).1

  checkout-Kept :
      (L : IsDatabase S)
      → IsAtomic S L
      → (o : Order) (w : World S) (id : ℤ) (p : Product) → (L.tables w.db).product id ≡ some p
      → Kept id p (L.tables w.db) (L.tables (checkout S o.user_id o.email o.request w).1.db)
  checkout-Kept L A o w id p e = elim (Option-cases (checkout S o.user_id o.email o.request w).0) [
    | inl fine ↦
        let (total, sold, _, _, _) = checkout-Sold S L o.user_id o.email o.request w fine in
        Sold-Kept o.user_id o.request total (L.tables w.db) _ id p sold e
    | inr (f, failed) ↦
        let (same, _, _, _) = checkout_failed S L A o.user_id o.email o.request w f failed in
        rw same (Kept-refl id p (L.tables w.db) e)
  ]

  -- After any run of checkouts, whichever of them fail, every product is still there at its name
  -- and price, its stock and the units of it that were sold add up to what they did before, and
  -- its stock is not negative unless it is what it was.
  pub checkouts-Kept :
      (L : IsDatabase S)
      → IsAtomic S L
      → (os : List Order) (w : World S) (id : ℤ) (p : Product) → (L.tables w.db).product id ≡ some p
      → Kept id p (L.tables w.db) (L.tables (checkouts os w).db)
  unfolding checkouts
  checkouts-Kept L A [] w id p e = Kept-refl id p (L.tables w.db) e
  checkouts-Kept L A (o ∷ os) w id p e =
      let first = checkout-Kept L A o w id p e in
      let w' : World S = (checkout S o.user_id o.email o.request w).1 in
      Kept-trans id p (L.tables w.db) (L.tables w'.db) (L.tables (checkouts os w').db) first
        (checkouts-Kept L A os w' id first.product first.found)
