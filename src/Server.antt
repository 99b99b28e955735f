-- ===== src/Server.antt =====
-- `main` of main.go: the set-up, the goroutines of the two servers, and the shutdown. What the
-- libraries answer and what happens while it serves are arguments. The addresses are those of the
-- source; the handlers are in Routes. Of the two goroutines that start the servers the one for gRPC
-- is taken to come first.
pub mod Lifecycle
pub mod Crash
use belajar_backend_go_v.Base.{Bool, true, false, Option, none, some, List, [], ◌∷◌, String, ◌<>◌}
use belajar_backend_go_v.Services.{GoError, failure}
use belajar_backend_go_v.Environment.{or_default, split_commas}
use belajar_backend_go_v.Process.{
  Run, Exit, running, fatal, panicked, next, stop, ◌>>◌, ◌>>=◌, behind, call, give, fatal_if,
  deferring, after_body, init_logger, open_database, register_metrics, unregister_metrics,
  close_database, new_redis, instrument_redis, close_redis, listen, serve_grpc, listen_and_serve,
  shutdown_http, shutdown_tracer, new_breaker, new_rate_limiter,
}
use belajar_backend_go_v.Resiliency.{new_database_breaker}
use belajar_backend_go_v.Telemetry.{Tracing, init_tracer}
use belajar_backend_go_v.Stream.{new_kafka_producer, close}

-- `is_registered`: `RegisterDBStatsMetrics` gave a registration, and not nil.
pub record Libraries : Type 0 where
  pub getenv : String → String
  pub tracing : Tracing
  pub open_error : String → Option GoError
  pub is_registered : Bool
  pub redis_metrics_error : Option GoError
  pub producer_error : List String → Option GoError

-- What `ListenAndServe` returns when it ends.
pub data ServeError : Type 0 where
  server_closed : ServeError
  serve_failed : GoError → ServeError

-- What happens while the program serves: the gRPC server's `Listen` and `Serve` return, the HTTP
-- server's `ListenAndServe` returns, or SIGINT or SIGTERM comes.
pub data Event : Type 0 where
  grpc_listened grpc_ended : Option GoError → Event
  http_ended : ServeError → Event
  signalled : Event

unfoldable pub connection_string : (String → String) → String
connection_string getenv =
    "host="
    <> (getenv "DB_HOST"
        <> (" port="
            <> (getenv "DB_PORT"
                <> (" user="
                    <> (getenv "DB_USER"
                        <> (" password="
                            <> (getenv "DB_PASSWORD"
                                <> (" dbname=" <> (getenv "DB_NAME" <> " sslmode=disable")))))))))

unfoldable pub redis_address : (String → String) → String
redis_address getenv = getenv "REDIS_HOST" <> (":" <> getenv "REDIS_PORT")

unfoldable pub kafka_brokers : (String → String) → List String
kafka_brokers getenv = split_commas (or_default (getenv "KAFKA_BROKERS") "kafka:9092")

-- The goroutines of the servers while `main` waits for a signal.
unfoldable pub serve_until : List Event → Run (Unit {0})
serve_until [] = ([], stop running)
serve_until (signalled ∷ events) = give tt
serve_until (grpc_listened none ∷ events) = call serve_grpc >> serve_until events
serve_until (grpc_listened (some e) ∷ events) = ([], stop (fatal e))
serve_until (grpc_ended none ∷ events) = serve_until events
serve_until (grpc_ended (some e) ∷ events) = ([], stop (fatal e))
serve_until (http_ended server_closed ∷ events) = serve_until events
serve_until (http_ended (serve_failed e) ∷ events) = ([], stop (fatal e))

abbrev pub nil_dereference : GoError
nil_dereference = failure "runtime error: invalid memory address or nil pointer dereference"

-- The second deferred function. An error of `Unregister` is only logged.
unfoldable pub unregister : Bool → Run (Unit {0})
unregister true = call unregister_metrics
unregister false = ([], stop (panicked nil_dereference))

-- An error of `Shutdown` is only logged.
unfoldable pub shutdown_servers : Run (Unit {0})
shutdown_servers = do call shutdown_http; call close_redis

unfoldable pub run_servers : List Event → Run (Unit {0})
unfolding serve_until shutdown_servers
run_servers events = do
  call (listen "[::]:50051")
  call (listen_and_serve ":8080")
  serve_until events
  shutdown_servers

-- `repository.NewProductRepository`
unfoldable pub new_product_repository : Run (Unit {0})
new_product_repository = call (new_breaker (new_database_breaker "product-db-query"))

-- `main` behind the opening of the database.
unfoldable pub with_database : Libraries → List Event → Run (Unit {0})
unfolding redis_address kafka_brokers new_kafka_producer close new_product_repository run_servers
with_database L events = do
  call (new_redis (redis_address L.getenv))
  call instrument_redis
  fatal_if L.redis_metrics_error
  new_kafka_producer L.producer_error (kafka_brokers L.getenv)
  deferring close (do new_product_repository; call (new_rate_limiter 20 30); run_servers events)

unfoldable pub traced : Libraries → List Event → Run (Unit {0})
unfolding connection_string with_database unregister
traced L events = do
  call (open_database (connection_string L.getenv))
  fatal_if (L.open_error (connection_string L.getenv))
  call register_metrics
  deferring (unregister L.is_registered) (deferring (call close_database) (with_database L events))

-- The first deferred function: an error of the tracer's shutdown is fatal.
unfoldable pub shutdown_tracing : Tracing → Run (Unit {0})
shutdown_tracing T = do call shutdown_tracer; fatal_if T.shutdown_error

unfoldable pub main : Libraries → List Event → Run (Unit {0})
unfolding init_tracer shutdown_tracing traced
main L events = do
  call init_logger
  init_tracer L.tracing "inventory-api" (L.getenv "OTEL_COLLECTOR_ADDR")
  deferring (shutdown_tracing L.tracing) (traced L events)
