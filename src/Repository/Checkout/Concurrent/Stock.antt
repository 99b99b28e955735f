-- ===== src/Repository/Checkout/Concurrent/Stock.antt =====
-- No unit of stock appears or vanishes while checkouts run at once.
use belajar_backend_go_v.Base.{◌≡◌, ◌≢◌, refl, ap, ◌∙◌, inl, inr, some, List, [], ◌∷◌, ℕ, ℤ}
use belajar_backend_go_v.Models.{Product}
use belajar_backend_go_v.Repository.Contract.{Tables}
use belajar_backend_go_v.Repository.Checkout.Conservation.{
  Order, Kept, Kept-refl, Kept-trans, Sold-Kept,
}
use belajar_backend_go_v.Repository.Checkout.Concurrent.{
  Write, Turn, call, write, take_turn, SharedDatabase, ready, advance, Running, run,
}
use belajar_backend_go_v.Repository.Checkout.Concurrent.Contract.{apply_write, IsShared}
use belajar_backend_go_v.Repository.Checkout.Concurrent.Steps.{write-Consistent, Consistent}
use belajar_backend_go_v.Repository.Checkout.Concurrent.Advance.{advance_lem}
use belajar_backend_go_v.Repository.Checkout.Conservation.{
  units_sold, Kept, Kept-refl, Kept-trans, Sold-Kept,
}
use belajar_backend_go_v.Repository.Checkout.Concurrent.Contract.{target}
use belajar_backend_go_v.Repository.Checkout.Concurrent.{replace, remove, statement}
use belajar_backend_go_v.Base.{◌+ℤ◌}
use belajar_backend_go_v.Repository.Checkout.Concurrent.Steps.{apply_write-other}
use belajar_backend_go_v.Repository.Checkout.Concurrent.Serial.{started-Consistent}

-- No write of the schedule is of that product.
abbrev pub Untouched : ℤ → List Turn → Type 0
Untouched id [] = Unit
Untouched id (call n ∷ schedule) = Untouched id schedule
Untouched id (write x ∷ schedule) = (target x ≢ id) × Untouched id schedule

apply_write-transactions :
    (x : Write) (t : Tables) → (apply_write x t).transactions ≡ t.transactions
apply_write-transactions (replace p) t = refl
apply_write-transactions (remove id) t = refl

module _ (D : SharedDatabase) (L : IsShared D) (orders : ℕ → Order) where
  -- What a turn of a checkout keeps.
  advance-Kept :
      (id : ℤ) (p : Product) (s : Running D) (n : ℕ)
      → Consistent D L orders s.db s.phases
      → (L.tables s.db).product id ≡ some p
      → Kept id p (L.tables s.db) (L.tables (advance D n (orders n) (s.phases n) s.db).1)
  advance-Kept id p s n c found =
      elim (advance_lem D L orders n s.db s.phases c (s.phases n) refl).1 [
        | inl (same, _) ↦ rw same (Kept-refl id p (L.tables s.db) found)
        | inr (total, _, _, sold_by) ↦
            Sold-Kept (orders n).user_id (orders n).request total (L.tables s.db) _ id p sold_by
              found
      ]

  apply_write-Kept :
      (id : ℤ) (p : Product) (x : Write) (t : Tables)
      → target x ≢ id
      → t.product id ≡ some p
      → Kept id p t (apply_write x t)
  apply_write-Kept id p x t other found = record {
    product = p;
    found = apply_write-other x t id other ∙ found;
    name = refl;
    price = refl;
    balance = ap (λ rows. p.stock +ℤ units_sold id rows) (apply_write-transactions x t);
    floor = inr refl;
  }

  write-Kept :
      (id : ℤ) (p : Product) (s : Running D) (x : Write)
      → target x ≢ id
      → (L.tables s.db).product id ≡ some p
      → Kept id p (L.tables s.db) (L.tables (D.exec (statement x).0 (statement x).1 s.db).1)
  write-Kept id p s x other found = elim (L.write-tables x s.db) [
    | inl (_, changed, _) ↦ rw changed (apply_write-Kept id p x (L.tables s.db) other found)
    | inr (_, same) ↦ rw same (Kept-refl id p (L.tables s.db) found)
  ]

  runs-Kept :
      (schedule : List Turn) (id : ℤ) (p : Product) (before : Tables) (s : Running D)
      → Untouched id schedule
      → Consistent D L orders s.db s.phases
      → Kept id p before (L.tables s.db)
      → Kept id p before (L.tables (run D orders schedule s).db)
  unfolding run take_turn
  runs-Kept [] id p before s away c kept = kept
  runs-Kept (call n ∷ schedule) id p before s away c kept =
      let moved = advance_lem D L orders n s.db s.phases c (s.phases n) refl in
      runs-Kept schedule id p before _ away moved.0 (
        Kept-trans id p before (L.tables s.db) _ kept
          (advance-Kept id kept.product s n c kept.found))
  runs-Kept (write x ∷ schedule) id p before s (other, away) c kept =
      runs-Kept schedule id p before _ away (write-Consistent D L orders x s.db s.phases c) (
        Kept-trans id p before (L.tables s.db) _ kept
          (write-Kept id kept.product s x other kept.found))

  -- Whatever the order in which checkouts make their calls, and whatever is written of other
  -- products meanwhile: stock and units sold of a product that is there add up to what they did at
  -- first, its name and price stay, and its stock is not negative unless it is what it was.
  pub run-Kept :
      (schedule : List Turn) (d : D.Db) (id : ℤ) (p : Product)
      → Untouched id schedule
      → ((n : ℕ) → L.pending n d ≡ [])
      → (L.tables d).product id ≡ some p
      → Kept id p
          (L.tables d)
          (L.tables (run D orders schedule (record { db = d; phases = λ n. ready })).db)
  run-Kept schedule d id p away nothing found =
      runs-Kept schedule id p (L.tables d) (record { db = d; phases = λ n. ready }) away
        (started-Consistent D L orders d nothing) (Kept-refl id p (L.tables d) found)
