-- ===== src/Server/Lifecycle.antt =====
-- How the process of main.go starts, serves and ends.
use belajar_backend_go_v.Base.{
  ◌≡◌, inl, inr, refl, ap, ◌∙◌, none, some, List, [], ◌∷◌, ◌++◌, arith, Option-cases, Bool-cases,
  if◌then◌else◌,
}
use mathlib.Core.List.{append_assoc}
use belajar_backend_go_v.Resiliency.{new_database_breaker}
use belajar_backend_go_v.Stream.{producer_config, new_kafka_producer, close}
use belajar_backend_go_v.Process.{
  Effect, init_logger, set_tracer_provider, set_propagator, shutdown_tracer, new_exporter,
  new_resource, open_database, register_metrics, unregister_metrics, close_database, new_redis,
  instrument_redis, close_redis, new_producer, close_producer, listen, listen_and_serve,
  shutdown_http, new_breaker, new_rate_limiter, Step, running, fatal, panicked, behind, deferring,
  call, fatal_if, next, stop, ◌>>◌,
}
use belajar_backend_go_v.Telemetry.{init_tracer}
use belajar_backend_go_v.Server.{
  Libraries, Event, signalled, grpc_listened, grpc_ended, http_ended, server_closed, serve_failed,
  serve_until, run_servers, with_database, traced, main, connection_string, kafka_brokers,
  redis_address, nil_dereference, unregister, shutdown_tracing,
}

-- What the libraries answer to the steps of the set-up.
abbrev pub SetUp : Libraries → Type 0
SetUp L =
    (L.tracing.exporter_error (L.getenv "OTEL_COLLECTOR_ADDR") ≡ none)
    × (L.tracing.resource_error "inventory-api" ≡ none)
    × (L.open_error (connection_string L.getenv) ≡ none)
    × (L.redis_metrics_error ≡ none)
    × (L.producer_error (kafka_brokers L.getenv) ≡ none)

serve_until-signalled :
    (before after : List Event)
    → (serve_until before).1 ≡ stop running
    → serve_until (before ++ signalled ∷ after) ≡ ((serve_until before).0, next tt)
unfolding serve_until
serve_until-signalled [] after h = refl
serve_until-signalled (signalled ∷ es) after h = absurd (ground (arith, h))
serve_until-signalled (grpc_listened none ∷ es) after h =
    ground (arith, serve_until-signalled es after)
serve_until-signalled (grpc_listened (some e) ∷ es) after h = absurd (ground (arith, h))
serve_until-signalled (grpc_ended none ∷ es) after h =
    ground (arith, serve_until-signalled es after)
serve_until-signalled (grpc_ended (some e) ∷ es) after h = absurd (ground (arith, h))
serve_until-signalled (http_ended server_closed ∷ es) after h =
    ground (arith, serve_until-signalled es after)
serve_until-signalled (http_ended (serve_failed e) ∷ es) after h = absurd (ground (arith, h))

-- How the process ends once the tracer is shut down.
abbrev pub ends_as : Libraries → Step (Unit {0})
ends_as L = elim L.tracing.shutdown_error [
  | some e ↦ stop (fatal e)
  | none ↦ if L.is_registered then next tt else stop (panicked nil_dereference)
]

abbrev pub metrics_end : Libraries → List Effect
metrics_end L = if L.is_registered then unregister_metrics ∷ [] else []

-- The calls of the set-up, in their order.
abbrev pub tracer_calls : Libraries → List Effect
tracer_calls L =
    new_exporter (L.getenv "OTEL_COLLECTOR_ADDR")
    ∷ new_resource "inventory-api"
    ∷ set_tracer_provider
    ∷ set_propagator
    ∷ []

abbrev pub redis_calls : Libraries → List Effect
redis_calls L =
    new_redis (redis_address L.getenv)
    ∷ instrument_redis
    ∷ new_producer producer_config (kafka_brokers L.getenv)
    ∷ []

abbrev pub repository_calls : List Effect
repository_calls =
    new_breaker (new_database_breaker "product-db-query") ∷ new_rate_limiter 20 30 ∷ []

abbrev pub set_up_calls : Libraries → List Effect
set_up_calls L =
    init_logger ∷ tracer_calls L
    ++ (open_database (connection_string L.getenv) ∷ register_metrics ∷ redis_calls L
        ++ repository_calls)

run_servers_stopped :
    (before after : List Event)
    → (serve_until before).1 ≡ stop running
    → run_servers (before ++ signalled ∷ after) ≡ (
      listen "[::]:50051"
          ∷ listen_and_serve ":8080"
          ∷ ((serve_until before).0 ++ shutdown_http ∷ close_redis ∷ []),
      next tt,
    )
unfolding run_servers
run_servers_stopped before after serving = rw (serve_until-signalled before after serving) refl

pub init_tracer_ok :
    (L : Libraries)
    → L.tracing.exporter_error (L.getenv "OTEL_COLLECTOR_ADDR") ≡ none
    → L.tracing.resource_error "inventory-api" ≡ none
    → init_tracer L.tracing "inventory-api" (L.getenv "OTEL_COLLECTOR_ADDR")
      ≡ (tracer_calls L, next tt)
unfolding init_tracer
init_tracer_ok L exporter_made resource_made =
    ap
      (λ e. do
        call (new_exporter (L.getenv "OTEL_COLLECTOR_ADDR"))
        fatal_if e
        call (new_resource "inventory-api")
        fatal_if (L.tracing.resource_error "inventory-api")
        call set_tracer_provider
        call set_propagator)
      exporter_made
    ∙ ap
        (λ e. do
          call (new_exporter (L.getenv "OTEL_COLLECTOR_ADDR"))
          call (new_resource "inventory-api")
          fatal_if e
          call set_tracer_provider
          call set_propagator)
        resource_made

module _ (L : Libraries) (fine : SetUp L) where
  new_kafka_producer_ok :
      new_kafka_producer L.producer_error (kafka_brokers L.getenv)
      ≡ (new_producer producer_config (kafka_brokers L.getenv) ∷ [], next tt)
  unfolding new_kafka_producer
  new_kafka_producer_ok =
      ap (λ e. call (new_producer producer_config (kafka_brokers L.getenv)) >> fatal_if e) fine.4

  with_database_ok :
      (events : List Event)
      → with_database L events
        ≡ behind (redis_calls L) (deferring close (behind repository_calls (run_servers events)))
  unfolding with_database
  with_database_ok events =
      ap
        (λ e. do
          call (new_redis (redis_address L.getenv))
          call instrument_redis
          fatal_if e
          new_kafka_producer L.producer_error (kafka_brokers L.getenv)
          deferring close (behind repository_calls (run_servers events)))
        fine.3
      ∙ ap
          (λ m. do
            call (new_redis (redis_address L.getenv))
            call instrument_redis
            m
            deferring close (behind repository_calls (run_servers events)))
          new_kafka_producer_ok

  traced_ok :
      (events : List Event)
      → traced L events
        ≡ behind (open_database (connection_string L.getenv) ∷ register_metrics ∷ []) (
            deferring
              (unregister L.is_registered)
              (deferring (call close_database) (with_database L events)))
  unfolding traced
  traced_ok events =
      ap
        (λ e. do
          call (open_database (connection_string L.getenv))
          fatal_if e
          call register_metrics
          deferring (unregister L.is_registered)
              (deferring (call close_database) (with_database L events)))
        fine.2

  main_ok :
      (events : List Event)
      → main L events
        ≡ behind
            (init_logger ∷ tracer_calls L)
            (deferring (shutdown_tracing L.tracing) (traced L events))
  unfolding main
  main_ok events =
      ap (λ m. do call init_logger; m; deferring (shutdown_tracing L.tracing) (traced L events))
        (init_tracer_ok L fine.0 fine.1)

-- Where each step of the set-up goes well and neither server has failed, a signal ends the process.
-- It shuts the HTTP server down and closes Redis, the producer, the database, the metrics and the
-- tracer, in this order; then `main` returns, unless the metrics were not registered, where it
-- panics, or the tracer's shutdown fails, which is fatal. The HTTP server's address does not depend
-- on the environment.
pub main_stopped :
    (L : Libraries) (before after : List Event)
    → SetUp L
    → (serve_until before).1 ≡ stop running
    → main L (before ++ signalled ∷ after) ≡ (
      set_up_calls L
          ++ (listen "[::]:50051"
              ∷ listen_and_serve ":8080"
              ∷ ((serve_until before).0
                  ++ (shutdown_http
                      ∷ close_redis
                      ∷ close_producer
                      ∷ close_database
                      ∷ (metrics_end L ++ shutdown_tracer ∷ [])))),
      ends_as L,
    )
unfolding unregister shutdown_tracing close
main_stopped L before after fine serving =
    rw
      (
        main_ok L fine,
        traced_ok L fine,
        with_database_ok L fine,
        run_servers_stopped before after serving,
      )
      (elim (Bool-cases L.is_registered) [
        | inl registered ↦ elim (Option-cases L.tracing.shutdown_error) [
          | inl closed ↦ rw (registered, closed) (simp append_assoc)
          | inr (e, failed) ↦ rw (registered, failed) (simp append_assoc)
        ]
        | inr missing ↦ elim (Option-cases L.tracing.shutdown_error) [
          | inl closed ↦ rw (missing, closed) (simp append_assoc)
          | inr (e, failed) ↦ rw (missing, failed) (simp append_assoc)
        ]
      ])
