-- ===== src/Worker/Main.antt =====
-- `main` of cmd/worker/main.go: the set-up, the goroutine around `Consume`, and the shutdown.
pub mod Ends
use belajar_backend_go_v.Base.{Bool, true, false, Option, none, some, List, [], ◌∷◌, String, map}
use belajar_backend_go_v.Services.{GoError, failure}
use belajar_backend_go_v.Environment.{or_default, split_commas}
use belajar_backend_go_v.Process.{
  Run, running, panicked, stop, ◌>>◌, call, panic_if, new_consumer_group, consume_topics,
  cancel_context, close_group,
}
use belajar_backend_go_v.Elastic.{ElasticClient, init_es}
use belajar_backend_go_v.Worker.Consumer.{LoopEnd, consume_loop}

-- `group_error` is that of `sarama.NewConsumerGroup`, `close_error` that of `Close`.
pub record WorkerLibraries : Type 0 where
  pub getenv : String → String
  pub elastic : ElasticClient
  pub group_error : List String → String → Option GoError
  pub close_error : Option GoError

unfoldable pub worker_brokers : (String → String) → List String
worker_brokers getenv = split_commas (or_default (getenv "KAFKA_BROKERS") "kafka:9092")

unfoldable pub es_address : (String → String) → String
es_address getenv = or_default (getenv "ELASTICSEARCH_ADDRESS") "http://elasticsearch:9200"

abbrev pub group_id : String
group_id = "inventory-worker-group"

abbrev pub no_error_panic : GoError
no_error_panic = failure "[KAFKA-WORKER] Error from consumer: <nil>"

-- Rounds of the goroutine that end before `cancel`, and behind it.
abbrev pub rounds_before : List (Option GoError) → List (Option GoError × Bool)
rounds_before = map (λ e. (e, false))

abbrev pub rounds_behind : List (Option GoError) → List (Option GoError × Bool)
rounds_behind = map (λ e. (e, true))

-- From `cancel()` on: `wg.Wait()` returns when the goroutine does.
unfoldable pub shut_down : WorkerLibraries → List (Option GoError) → Run (Unit {0})
shut_down L rounds = do
  call cancel_context
  elim (consume_loop (rounds_behind rounds)) [
    | LoopEnd.panicked ↦ ([], stop (panicked no_error_panic))
    | LoopEnd.running ↦ ([], stop running)
    | LoopEnd.returned ↦ (call close_group >> panic_if L.close_error)
  ]

-- The wait for a signal while the goroutine runs. `signal` holds the rounds behind it.
unfoldable pub consume_until :
    WorkerLibraries → List (Option GoError) → Option (List (Option GoError)) → Run (Unit {0})
unfolding shut_down
consume_until L rounds signal = elim (consume_loop (rounds_before rounds)) [
  | LoopEnd.panicked ↦ ([], stop (panicked no_error_panic))
  | LoopEnd.returned ↦ ([], stop running)
  | LoopEnd.running ↦ elim signal [ none ↦ ([], stop running) | some behind ↦ shut_down L behind ]
]

unfoldable pub worker_main :
    WorkerLibraries → List (Option GoError) → Option (List (Option GoError)) → Run (Unit {0})
unfolding worker_brokers es_address init_es consume_until
worker_main L rounds signal = do
  init_es L.elastic (es_address L.getenv)
  call (new_consumer_group (worker_brokers L.getenv) group_id)
  panic_if (L.group_error (worker_brokers L.getenv) group_id)
  call (consume_topics ("checkout-events" ∷ "product-events" ∷ []))
  consume_until L rounds signal
