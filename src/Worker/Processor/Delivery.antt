-- ===== src/Worker/Processor/Delivery.antt =====
-- What becomes of a task in the queue of internal/worker/processor.go.
use belajar_backend_go_v.Base.{
  ◌≡◌, ◌<>◌, refl, ◌⊎◌, inl, inr, true, false, none, some, List, [], ◌∷◌, ◌++◌, ℕ, ltb, arith,
  Option-cases, Bool-cases,
}
use belajar_backend_go_v.Json.{Document, json, unmarshal}
use belajar_backend_go_v.Models.{TaskSendInvoice, queue_invoice}
use belajar_backend_go_v.Models.Codec.{encode_task}
use belajar_backend_go_v.Models.RoundTrip.{IsTask, decode-encode_task}
use belajar_backend_go_v.Services.{GoError, failure, error_text, ok, err, Result-cases}
use belajar_backend_go_v.Worker.Consumer.{zero_task}
use belajar_backend_go_v.Worker.Processor.{Queues, requeue, process_payload, process_task_invoice}

-- The lists of a store: `BLPop` takes the first element, `RPush` adds at the end, and an error of
-- either leaves the list as it was.
pub record IsQueues (Q : Queues) : Type 0 where
  pub items : Q.Store → List Document
  pub pop-ok :
      (d : Document) (s : Q.Store)
      → (Q.blpop queue_invoice s).0 ≡ ok d
      → items s ≡ d ∷ items (Q.blpop queue_invoice s).1
  pub pop-failed :
      (e : GoError) (s : Q.Store)
      → (Q.blpop queue_invoice s).0 ≡ err e
      → items (Q.blpop queue_invoice s).1 ≡ items s
  pub push-ok :
      (d : Document) (s : Q.Store)
      → (Q.rpush queue_invoice d s).0 ≡ none
      → items (Q.rpush queue_invoice d s).1 ≡ items s ++ d ∷ []
  pub push-failed :
      (d : Document) (e : GoError) (s : Q.Store)
      → (Q.rpush queue_invoice d s).0 ≡ some e
      → items (Q.rpush queue_invoice d s).1 ≡ items s

module _ (Q : Queues) (L : IsQueues Q) where
  -- A call on a queue with a task at its head either sends the invoice of that task and takes it
  -- off, or moves it to the end, or returns an error. With no error the task is never lost.
  pub process_task_invoice_lem :
      (roll : ℕ) (t : TaskSendInvoice) (rest : List Document) (s : Q.Store)
      → IsTask t
      → L.items s ≡ json (encode_task t) ∷ rest
      → let (done, s') = process_task_invoice Q roll s in
        ((done.failed ≡ none) × (done.sent ≡ some t) × (L.items s' ≡ rest) × (ltb roll 2 ≡ false))
        ⊎ ((done.failed ≡ none)
            × (done.sent ≡ none)
            × (L.items s' ≡ rest ++ json (encode_task t) ∷ [])
            × (ltb roll 2 ≡ true))
        ⊎ ((e : GoError) × (done.failed ≡ some e) × (done.sent ≡ none))
  unfolding process_task_invoice process_payload requeue unmarshal
  process_task_invoice_lem roll t rest s range head =
      elim (Result-cases (Q.blpop queue_invoice s).0) [
        | inr (e, failed) ↦ rw (failed, process_task_invoice) (inr (inr (_, refl, refl)))
        | inl (d, popped) ↦
            let whole = L.pop-ok d s popped in
            let decoded = decode-encode_task t zero_task range in
            let same : d ≡ json (encode_task t) = ground (arith, whole, head) in
            let left : L.items (Q.blpop queue_invoice s).1 ≡ rest = ground (arith, whole, head) in
            elim (Bool-cases (ltb roll 2)) [
              | inr fair ↦ inl (ground (arith, decoded, same, left))
              | inl unlucky ↦
                  elim (Option-cases (Q.rpush queue_invoice d (Q.blpop queue_invoice s).1).0) [
                    | inl pushed ↦
                        inr (inl (ground (arith, decoded, same, left, L.push-ok d _ pushed)))
                    | inr (e, failed) ↦ inr (
                        inr (
                          failure ("Gagal mengembalikan task ke redis: " <> error_text e),
                          ground (arith, decoded, same),
                          ground (arith, decoded, same),
                        ))
                  ]
            ]
      ]
