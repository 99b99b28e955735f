-- ===== src/Worker/Consumer.antt =====
-- The consumer of cmd/worker/main.go: `ConsumeClaim` over the messages of a claim, and the loop
-- around `Consume`.
pub mod Invoices
pub mod Mirror
pub mod Pipeline
pub mod Loop
pub mod Lost
pub mod Unannounced
pub mod Redelivery
use package.text.Mathlib.Text.{◌==◌ as str_eq}
use belajar_backend_go_v.Base.{
  ℕ, pos, Bool, true, false, not, Option, none, some, List, [], ◌∷◌, ◌++◌, String, if◌then◌else◌,
}
use belajar_backend_go_v.Json.{Document, unmarshal}
use belajar_backend_go_v.Models.{TaskSendInvoice, ProductEvent, zero_product}
use belajar_backend_go_v.Models.Codec.{decode_task, decode_event}
use belajar_backend_go_v.Services.{GoError}
use belajar_backend_go_v.Worker.Search.{Elastic, sync_product}

abbrev pub zero_task : TaskSendInvoice
zero_task = record {
  user_id = pos 0;
  email = "";
  product_id = pos 0;
  quantity = pos 0;
  total_price = pos 0;
}

abbrev pub zero_event : ProductEvent
zero_event = record { action = ""; product = zero_product }

-- sarama.ConsumerMessage
pub record ConsumerMessage : Type 0 where
  pub topic : String
  pub offset : ℕ
  pub value : Document

module _ (E : Elastic) where
  -- The search index, the invoices sent by `processTask`, and the offsets marked as done.
  pub record Consumed : Type 0 where
    pub index : E.Store
    pub invoices : List TaskSendInvoice
    pub marked : List ℕ

  unfoldable pub process_task : TaskSendInvoice → Consumed → Consumed
  process_task t s = record s { invoices = s.invoices ++ t ∷ [] }

  unfoldable pub mark_message : ConsumerMessage → Consumed → Consumed
  mark_message m s = record s { marked = s.marked ++ m.offset ∷ [] }

  -- The task is processed where there IS an error, as the source has it.
  unfoldable pub on_checkout : Document → Consumed → Consumed
  unfolding process_task
  on_checkout value s =
      let (task, fine) = unmarshal decode_task value zero_task in
      if not fine then process_task task s else s

  -- One round of the loop in `ConsumeClaim`; `continue` passes the mark by.
  unfoldable pub consume : String → ConsumerMessage → Consumed → Consumed
  unfolding on_checkout mark_message
  consume now m s =
      if str_eq m.topic "checkout-events"
      then mark_message m (on_checkout m.value s)
      else if str_eq m.topic "product-events"
      then (let (evt, fine) = unmarshal decode_event m.value zero_event in
          if fine then mark_message m (record s { index = sync_product E now evt s.index }) else s)
      else mark_message m s

  unfoldable pub consume_claim : String → List ConsumerMessage → Consumed → Consumed
  unfolding consume
  consume_claim now [] s = s
  consume_claim now (m ∷ ms) s = consume_claim now ms (consume now m s)

-- How the goroutine around `Consume` ends, or that it still runs behind the given rounds.
pub data LoopEnd : Type 0 where
  panicked returned running : LoopEnd

-- A round is what `Consume` returned and whether the context is done by then. The panic is on a
-- round with NO error, as the source has it.
unfoldable pub consume_loop : List (Option GoError × Bool) → LoopEnd
consume_loop [] = running
consume_loop ((none, _) ∷ rounds) = panicked
consume_loop ((some _, true) ∷ rounds) = returned
consume_loop ((some _, false) ∷ rounds) = consume_loop rounds
