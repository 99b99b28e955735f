-- ===== src/Repository/Checkout/Concurrent/Steps.antt =====
-- Each statement of a checkout among others keeps what the transactions have done apart.
use belajar_backend_go_v.Base.{
  ◌≡◌, ◌≢◌, refl, sym, ap, ◌∙◌, ◌⊎◌, inl, inr, Option, none, some, List, [], ◌∷◌, ◌++◌, ℕ, ℤ, ◌*ℤ◌,
  ◌≤ℤ◌, wrap64, arith, eqb_ℤ_iff,
}
use belajar_backend_go_v.Models.{Product}
use belajar_backend_go_v.Repository.Contract.{Tables}
use belajar_backend_go_v.Repository.Checkout.Atomic.{Sold, sale_row}
use belajar_backend_go_v.Repository.Checkout.Conservation.{Order}
use belajar_backend_go_v.Repository.Checkout.Concurrent.{
  Write, replace, remove, statement, SharedDatabase, Phase, ready, begun, reserved, recorded, sold,
  failed, set_phase,
}
use belajar_backend_go_v.Repository.Checkout.Concurrent.Contract.{
  target, apply_write, Change, take, add, apply, Holds, IsShared,
}

-- The committed row of the product, with stock enough.
pub record Enough (o : Order) (price : ℤ) (t : Tables) : Type 0 where
  pub product : Product
  pub found : t.product o.request.product_id ≡ some product
  pub enough : o.request.quantity ≤ℤ product.stock
  pub at : price ≡ product.price

abbrev pub taken : Order → List Change
taken o = take o.request.product_id o.request.quantity ∷ []

-- What a request that has come so far has not committed, and has seen.
abbrev pub Fine : Phase → Order → List Change → Tables → Type 0
Fine (reserved price) o changes t = (changes ≡ taken o) × Enough o price t
Fine (recorded total) o changes t =
    (price : ℤ) × (n : ℤ) × (at : ℤ) × (total ≡ wrap64 (price *ℤ o.request.quantity))
    × (changes ≡ taken o ++ add (sale_row o.user_id o.request total n at) ∷ [])
    × Enough o price t
Fine phase o changes t = changes ≡ []

-- The total of a sale that is done.
abbrev pub outcome : Phase → Option ℤ
outcome (sold total) = some total
outcome phase = none

-- A commit makes a sale.
pub recorded-Sold :
    (o : Order) (total : ℤ) (changes : List Change) (t : Tables)
    → Fine (recorded total) o changes t
    → Sold o.user_id o.request total t (apply changes t)
recorded-Sold o total changes t (price, n, at, paid, shape, e) = record {
  product = e.product;
  row = sale_row o.user_id o.request total n at;
  found = e.found;
  enough = e.enough;
  price = paid ∙ ap (λ p. wrap64 (p *ℤ o.request.quantity)) e.at;
  by = refl;
  of = refl;
  units = refl;
  paid = refl;
  changed = rw shape (rw e.found refl);
}

-- Only the row of a product that a transaction holds needs to be as it was.
Fine-other :
    (phase : Phase) (o : Order) (changes : List Change) (t t' : Tables)
    → (Holds o.request.product_id changes
        → t'.product o.request.product_id ≡ t.product o.request.product_id)
    → Fine phase o changes t
    → Fine phase o changes t'
Fine-other ready o changes t t' same fine = fine
Fine-other begun o changes t t' same fine = fine
Fine-other (sold _) o changes t t' same fine = fine
Fine-other (failed _) o changes t t' same fine = fine
Fine-other (reserved price) o changes t t' same (shape, e) = (
  shape,
  record {
    product = e.product;
    found = same (rw shape (inl refl)) ∙ e.found;
    enough = e.enough;
    at = e.at;
  },
)
Fine-other (recorded total) o changes t t' same (price, n, at, paid, shape, e) = (
  price,
  n,
  at,
  paid,
  shape,
  record {
    product = e.product;
    found = same (rw shape (inl refl)) ∙ e.found;
    enough = e.enough;
    at = e.at;
  },
)

pub Sold-other :
    (o : Order) (total : ℤ) (t t' : Tables) (id : ℤ)
    → Sold o.user_id o.request total t t'
    → ¬ (id ≡ o.request.product_id)
    → t'.product id ≡ t.product id
Sold-other o total t t' id s other =
    rw s.changed (ground (arith, eqb_ℤ_iff id o.request.product_id))

pub apply_write-other :
    (x : Write) (t : Tables) (id : ℤ)
    → ¬ (target x ≡ id)
    → (apply_write x t).product id ≡ t.product id
apply_write-other (replace p) t id other = ground (arith, eqb_ℤ_iff id p.id)
apply_write-other (remove j) t id other = ground (arith, eqb_ℤ_iff id j)

pub set_phase-cases :
    (n : ℕ) (phase : Phase) (phases : ℕ → Phase) (m : ℕ)
    → ((set_phase n phase phases m ≡ phase) × (m ≡ n))
      ⊎ ((set_phase n phase phases m ≡ phases m) × (m ≢ n))
set_phase-cases n phase phases m = ground arith

module _ (D : SharedDatabase) (L : IsShared D) (orders : ℕ → Order) where
  -- Each request has done what its phase says, and no two hold the same row.
  pub record Consistent (d : D.Db) (phases : ℕ → Phase) : Type 0 where
    pub fine : (n : ℕ) → Fine (phases n) (orders n) (L.pending n d) (L.tables d)
    pub apart : (m n : ℕ) (id : ℤ) → m ≢ n → Holds id (L.pending m d) → Holds id (L.pending n d) → ⊥

  -- A statement of one request, after which the rows that the others hold are as before.
  pub step-Consistent :
      (n : ℕ) (phase : Phase) (d d' : D.Db) (phases : ℕ → Phase)
      → Consistent d phases
      → ((m : ℕ) → m ≢ n → L.pending m d' ≡ L.pending m d)
      → ((m : ℕ) (id : ℤ)
          → m ≢ n
          → Holds id (L.pending m d)
          → (L.tables d').product id ≡ (L.tables d).product id)
      → Fine phase (orders n) (L.pending n d') (L.tables d')
      → ((m : ℕ) (id : ℤ) → m ≢ n → Holds id (L.pending m d) → Holds id (L.pending n d') → ⊥)
      → Consistent d' (set_phase n phase phases)
  step-Consistent n phase d d' phases c others rows own free = record {
    fine = λ m. elim (set_phase-cases n phase phases m) [
      | inl (here, same) ↦ rw (here, same) own
      | inr (there, other) ↦
          rw (there, others m other)
            (Fine-other (phases m) (orders m) (L.pending m d) (L.tables d) (L.tables d')
              (λ holds. rows m (orders m).request.product_id other holds) (c.fine m))
    ];
    apart = λ i j id distinct hi hj. elim (set_phase-cases n phase phases i) [
      | inl (_, same) ↦
          let other : j ≢ n = λ e. distinct (same ∙ sym e) in
          free j id other (rw (others j other) at hj) (rw same at hi)
      | inr (_, other) ↦ elim (set_phase-cases n phase phases j) [
        | inl (_, same) ↦ free i id other (rw (others i other) at hi) (rw same at hj)
        | inr (_, other') ↦
            c.apart i j id distinct (rw (others i other) at hi) (rw (others j other') at hj)
      ]
    ];
  }

  -- A write of another request waits for the rows that are held.
  pub write-Consistent :
      (x : Write) (d : D.Db) (phases : ℕ → Phase)
      → Consistent d phases
      → Consistent (D.exec (statement x).0 (statement x).1 d).1 phases
  write-Consistent x d phases c =
      let d' : D.Db = (D.exec (statement x).0 (statement x).1 d).1 in
      record {
        fine = λ m. rw (L.write-pending x m d) (
            Fine-other (phases m) (orders m) (L.pending m d) (L.tables d) (L.tables d')
              (λ held. elim (L.write-tables x d) [
                | inl (_, changed, free) ↦
                    ap (λ t. t.product (orders m).request.product_id) changed
                    ∙ apply_write-other x (L.tables d) (orders m).request.product_id
                        (λ same. free m (rw same held))
                | inr (_, same) ↦ ap (λ t. t.product (orders m).request.product_id) same
              ])
              (c.fine m));
        apart = λ i j id distinct hi hj.
            c.apart i j id distinct (rw (L.write-pending x i d) at hi)
              (rw (L.write-pending x j d) at hj);
      }
