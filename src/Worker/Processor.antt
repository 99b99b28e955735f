-- ===== src/Worker/Processor.antt =====
-- internal/worker/processor.go: one invoice task of the queue in Redis. What `rand.Intn(10)` gives
-- is an argument.
pub mod Delivery
pub mod Queue
use Prim.Native.String.{String}
use belajar_backend_go_v.Base.{ℕ, pos, Bool, Option, none, some, ◌<>◌, ltb, if◌then◌else◌}
use belajar_backend_go_v.Json.{Document, unmarshal}
use belajar_backend_go_v.Models.{TaskSendInvoice, queue_invoice}
use belajar_backend_go_v.Models.Codec.{decode_task}
use belajar_backend_go_v.Services.{GoError, failure, error_text, Result, ok, err}
use belajar_backend_go_v.Worker.Consumer.{zero_task}

-- The lists of Redis: `BLPop` waits for the first element of a list, `RPush` adds one at its end.
pub record Queues : Type 1 where
  pub Store : Type 0
  pub blpop : String → Store → Result Document × Store
  pub rpush : String → Document → Store → Option GoError × Store

-- What a call has done: the error that it returns, and the invoice that it sent.
pub record Processed : Type 0 where
  pub failed : Option GoError
  pub sent : Option TaskSendInvoice

module _ (Q : Queues) where
  unfoldable pub requeue : Document → Q.Store → Processed × Q.Store
  unfolding error_text
  requeue payload s =
      let (pushed, s') = Q.rpush queue_invoice payload s in
      elim pushed [
        | some e ↦ (
          record {
            failed = some (failure ("Gagal mengembalikan task ke redis: " <> error_text e));
            sent = none;
          },
          s',
        )
        | none ↦ (record { failed = none; sent = none }, s')
      ]

  unfoldable pub process_payload : ℕ → Document → Q.Store → Processed × Q.Store
  unfolding requeue
  process_payload roll payload s =
      let (task, fine) = unmarshal decode_task payload zero_task in
      if fine
      then (if ltb roll 2
          then requeue payload s
          else (record { failed = none; sent = some task }, s))
      else (record { failed = none; sent = none }, s)

  unfoldable pub process_task_invoice : ℕ → Q.Store → Processed × Q.Store
  unfolding process_payload error_text
  process_task_invoice roll s =
      let (popped, s') = Q.blpop queue_invoice s in
      elim popped [
        | err e ↦ (
          record {
            failed = some (failure ("redis connection error: " <> error_text e));
            sent = none;
          },
          s',
        )
        | ok payload ↦ process_payload roll payload s'
      ]
