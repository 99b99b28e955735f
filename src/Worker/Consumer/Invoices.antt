-- ===== src/Worker/Consumer/Invoices.antt =====
-- What becomes of the tasks that `Checkout` sends.
use package.text.Mathlib.TextEquality.{eq_iff}
use belajar_backend_go_v.Base.{◌≡◌, refl, List, [], ◌∷◌, ◌++◌, ℕ, String, arith, ◌∙◌, sym, ap}
use mathlib.Core.List.{append_assoc, append-nil}
use belajar_backend_go_v.Json.{json, malformed, unmarshal}
use belajar_backend_go_v.Models.{TaskSendInvoice}
use belajar_backend_go_v.Models.Codec.{encode_task}
use belajar_backend_go_v.Models.RoundTrip.{IsTask, decode-encode_task}
use belajar_backend_go_v.Worker.Search.{Elastic}
use belajar_backend_go_v.Worker.Consumer.{
  ConsumerMessage, Consumed, zero_task, consume, consume_claim,
}

-- A message as the API sends it after a checkout.
pub record IsInvoiceMessage (m : ConsumerMessage) : Type 0 where
  pub topic : m.topic ≡ "checkout-events"
  pub task : TaskSendInvoice
  pub range : IsTask task
  pub value : m.value ≡ json (encode_task task)

abbrev pub AllInvoices : List ConsumerMessage → Type 0
AllInvoices [] = Unit
AllInvoices (m ∷ ms) = IsInvoiceMessage m × AllInvoices ms

abbrev pub offsets : List ConsumerMessage → List ℕ
offsets [] = []
offsets (m ∷ ms) = m.offset ∷ offsets ms

module _ (E : Elastic) where
  consume_invoice :
      (now : String) (m : ConsumerMessage) (s : Consumed E)
      → IsInvoiceMessage m
      → consume E now m s ≡ record s { marked = s.marked ++ m.offset ∷ [] }
  unfolding consume unmarshal
  consume_invoice now m s h = ground (
    arith,
    eq_iff m.topic "checkout-events",
    h.topic,
    h.value,
    decode-encode_task h.task zero_task h.range,
  )

  -- Whatever tasks the API sends, the worker sends no invoice for any of them: it marks each
  -- message as done, and changes nothing else.
  pub consume_claim-AllInvoices :
      (now : String) (ms : List ConsumerMessage) (s : Consumed E)
      → AllInvoices ms
      → consume_claim E now ms s ≡ record s { marked = s.marked ++ offsets ms }
  unfolding consume_claim
  consume_claim-AllInvoices now [] s h =
      ap (λ z. record s { marked = z }) (sym (append-nil s.marked))
  consume_claim-AllInvoices now (m ∷ ms) s h =
      ap (consume_claim E now ms) (consume_invoice now m s h.0)
      ∙ consume_claim-AllInvoices now ms _ h.1
      ∙ ap (λ z. record s { marked = z }) (append_assoc s.marked (m.offset ∷ []) (offsets ms))

  -- A message on that topic that is no JSON is answered by an invoice with every field empty.
  consume_malformed :
      (now : String) (offset : ℕ) (s : Consumed E)
      → consume E now (record { topic = "checkout-events"; offset = offset; value = malformed }) s
        ≡ record s { invoices = s.invoices ++ zero_task ∷ []; marked = s.marked ++ offset ∷ [] }
  unfolding consume unmarshal
  consume_malformed now offset s = refl
