-- ===== src/Worker/Consumer/Unannounced.antt =====
-- A sale of repository/product_repo.go against the search index of cmd/worker/main.go.
use mathlib.Core.Option
use package.text.Mathlib.TextEquality.{eq_iff}
use belajar_backend_go_v.Base.{
  ◌≡◌, refl, ap, ◌∙◌, none, some, ℤ, pos, ◌≤ℤ◌, ◌-ℤ◌, IsInt64, eqb_ℤ_refl, String, ℕ, arith,
  int_laws, pos_part, neg_part,
}
use belajar_backend_go_v.Strconv.{itoa}
use belajar_backend_go_v.Json.{json}
use belajar_backend_go_v.Models.{Product, CheckoutRequest}
use belajar_backend_go_v.Models.Codec.{encode_product, encode_task}
use belajar_backend_go_v.Services.{Services, World, Message}
use belajar_backend_go_v.Repository.Contract.{IsDatabase}
use belajar_backend_go_v.Repository.Checkout.{checkout, send_invoice, invoice_task}
use belajar_backend_go_v.Repository.Checkout.Atomic.{checkout-Sold}
use belajar_backend_go_v.Stream.{send_message}
use belajar_backend_go_v.Worker.Search.{Elastic}
use belajar_backend_go_v.Worker.Consumer.{ConsumerMessage, Consumed, consume}
use belajar_backend_go_v.Worker.Consumer.Mirror.{IsElastic, Mirrors}

encode_product_stock : (p q : Product) → encode_product p ≡ encode_product q → p.stock ≡ q.stock
unfolding encode_product
encode_product_stock p q e = cc

-- A positive quantity changes a stock.
less : (a q : ℤ) → pos 1 ≤ℤ q → a -ℤ q ≡ a → ⊥
less a q positive same = omega (int_laws, positive, ap pos_part same, ap neg_part same)

module _ (E : Elastic) where
  -- Whatever the value of a message on that topic, the index stays as it is.
  consume_checkout-index :
      (now : String) (m : ConsumerMessage) (s : Consumed E)
      → m.topic ≡ "checkout-events"
      → (consume E now m s).index ≡ s.index
  unfolding consume
  consume_checkout-index now m s topic = ground (arith, eq_iff m.topic "checkout-events", topic)

module _ (S : Services) (L : IsDatabase S) (E : Elastic) (M : IsElastic E) where
  pub checkout_unannounced :
      (user_id : ℤ) (email : String) (req : CheckoutRequest) (w : World S) (s : Consumed E)
      (now : String) (offset : ℕ)
      → IsInt64 req.product_id
      → pos 1 ≤ℤ req.quantity
      → Mirrors E M (L.tables w.db) s.index
      → (checkout S user_id email req w).0 ≡ none
      → let w' : World S = (checkout S user_id email req w).1 in
        (m : Message) × (w'.log ≡ (S.broker.send m w.log).1)
        × (let received : ConsumerMessage = record {
          topic = m.topic;
          offset = offset;
          value = m.value;
        } in
            (consume E now received s).index ≡ s.index)
        × ¬ (Mirrors E M (L.tables w'.db) s.index)
  unfolding send_invoice send_message
  checkout_unannounced user_id email req w s now offset range positive mirror fine =
      let (total, sold, log, _, _) = checkout-Sold S L user_id email req w fine in
      let indexed = mirror req.product_id range in
      (
        record {
          topic = "checkout-events";
          key = itoa user_id;
          value = json (encode_task (invoice_task S user_id email req total));
        },
        log,
        consume_checkout-index E now _ s refl,
        λ still.
            let sold_row : Product = record sold.product {
              stock = sold.product.stock -ℤ req.quantity;
            } in
            let after : (L.tables (checkout S user_id email req w).1.db).product req.product_id
                ≡ some sold_row =
              rw (sold.changed, eqb_ℤ_refl req.product_id) refl in
            let old_doc = indexed ∙ ap (Option.map encode_product) sold.found in
            let new_doc = still req.product_id range ∙ ap (Option.map encode_product) after in
            let same : encode_product sold_row ≡ encode_product sold.product =
              ground (arith, old_doc, new_doc) in
            less sold.product.stock req.quantity positive
              (encode_product_stock sold_row sold.product same),
      )
