-- ===== src/Worker/Consumer/Redelivery.antt =====
-- Events that Kafka delivers again, since the worker died before their offsets were committed.
use mathlib.Core.Option
use belajar_backend_go_v.Base.{
  ◌≡◌, refl, ap, ◌∙◌, Option, none, some, List, [], ◌∷◌, ◌++◌, ℕ, zero, suc, ℤ, String, eqb_ℤ,
  if◌then◌else◌, arith,
}
use belajar_backend_go_v.Models.{Product, ProductEvent}
use belajar_backend_go_v.Models.Codec.{encode_product}
use belajar_backend_go_v.Repository.Contract.{Tables, set_row}
use belajar_backend_go_v.Worker.Search.{Elastic}
use belajar_backend_go_v.Worker.Consumer.{Consumed, consume_claim}
use belajar_backend_go_v.Worker.Consumer.Mirror.{
  IsElastic, Mirrors, AllEvents, row_after, apply_events, event_messages, consume_claim-Mirrors,
}

-- What the last event of a product leaves of it, if one of the events is of it.
last_row : ℤ → List ProductEvent → Option (Option Product)
last_row id [] = none
last_row id (e ∷ es) = elim (last_row id es) [
  | some row ↦ some row
  | none ↦ if eqb_ℤ id e.product.id then some (row_after e) else none
]

abbrev or_row : Option (Option Product) → Option Product → Option Product
or_row none row = row
or_row (some row) old = row

-- Only the last event of a product counts.
apply_events-last_row :
    (es : List ProductEvent) (t : Tables) (id : ℤ)
    → (apply_events es t).product id ≡ or_row (last_row id es) (t.product id)
unfolding last_row
apply_events-last_row [] t id = refl
apply_events-last_row (e ∷ es) t id =
    ground (arith, apply_events-last_row es (set_row e.product.id (row_after e) t) id)

apply_events_again :
    (es : List ProductEvent) (t : Tables) (id : ℤ)
    → (apply_events es (apply_events es t)).product id ≡ (apply_events es t).product id
apply_events_again es t id =
    ground (arith, apply_events-last_row es t id, apply_events-last_row es (apply_events es t) id)

apply_events-append :
    (xs ys : List ProductEvent) (t : Tables)
    → apply_events (xs ++ ys) t ≡ apply_events ys (apply_events xs t)
apply_events-append [] ys t = refl
apply_events-append (x ∷ xs) ys t = apply_events-append xs ys _

AllEvents-append : (xs ys : List ProductEvent) → AllEvents xs → AllEvents ys → AllEvents (xs ++ ys)
AllEvents-append [] ys hx hy = hy
AllEvents-append (x ∷ xs) ys (range, action, hx) hy = (range, action, AllEvents-append xs ys hx hy)

module _ (E : Elastic) where
  -- The same events from an offset on, a number of times.
  pub deliver_again : ℕ → String → ℕ → List ProductEvent → Consumed E → Consumed E
  deliver_again zero now n es s = s
  deliver_again (suc times) now n es s =
      deliver_again times now n es (consume_claim E now (event_messages n es) s)

  module _ (L : IsElastic E) where
    again-Mirrors :
        (times : ℕ) (now : String) (n : ℕ) (es : List ProductEvent) (t : Tables) (s : Consumed E)
        → AllEvents es
        → Mirrors E L (apply_events es t) s.index
        → Mirrors E L (apply_events es t) (deliver_again times now n es s).index
    unfolding deliver_again
    again-Mirrors zero now n es t s h m = m
    again-Mirrors (suc times) now n es t s h m = again-Mirrors times now n es t _ h (λ id range.
        consume_claim-Mirrors E L now n es (apply_events es t) s h m id range
        ∙ ap (Option.map encode_product) (apply_events_again es t id))

    -- If the last of the events that a worker has consumed are delivered again, all of them and any
    -- number of times, the index still mirrors the table after the events.
    pub deliver_again-Mirrors :
        (times : ℕ) (now : String) (n k : ℕ) (done again : List ProductEvent) (t : Tables)
        (s : Consumed E)
        → AllEvents done
        → AllEvents again
        → Mirrors E L t s.index
        → Mirrors E L
            (apply_events (done ++ again) t)
            (deliver_again times now k again
              (consume_claim E now (event_messages n (done ++ again)) s)).index
    deliver_again-Mirrors times now n k done again t s hd ha m =
        rw (apply_events-append done again t) (
          again-Mirrors times now k again (apply_events done t) _ ha (
            rw (← apply_events-append done again t) (
              consume_claim-Mirrors E L now n (done ++ again) t s
                (AllEvents-append done again hd ha) m)))
