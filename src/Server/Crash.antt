-- ===== src/Server/Crash.antt =====
-- How the process of main.go dies: `log.Fatal` in the set-up or in one of the servers.
use belajar_backend_go_v.Base.{◌≡◌, ◌⊎◌, inl, inr, refl, none, some, List, [], ◌∷◌}
use belajar_backend_go_v.Process.{
  Run, running, next, stop, call, behind, fatal_if, close_database, serve_grpc, ◌>>◌, init_logger,
  new_exporter, new_resource, open_database, register_metrics, new_redis, instrument_redis,
  new_producer, listen, listen_and_serve, set_tracer_provider, set_propagator, deferring,
}
use belajar_backend_go_v.Process.Laws.{
  NothingClosed, IsKilled, IsThrough, then-IsKilled, fatal_if-IsKilled, call_fatal-IsKilled, past,
  deferred, >>=-IsKilled,
}
use belajar_backend_go_v.Stream.{producer_config, new_kafka_producer, close}
use belajar_backend_go_v.Telemetry.{init_tracer}
use belajar_backend_go_v.Server.{
  Libraries, Event, signalled, grpc_listened, grpc_ended, http_ended, server_closed, serve_failed,
  serve_until, run_servers, shutdown_servers, with_database, traced, main, connection_string,
  kafka_brokers, redis_address, unregister, shutdown_tracing, new_product_repository,
}
use belajar_backend_go_v.Server.Lifecycle.{tracer_calls, repository_calls, SetUp, init_tracer_ok}

-- Neither server has failed before a signal, if one came.
abbrev pub HasServed : List Event → Type 0
HasServed events = ((serve_until events).1 ≡ stop running) ⊎ ((serve_until events).1 ≡ next tt)

serve_until-IsKilled :
    (events : List Event)
    → NothingClosed (serve_until events).0 × (IsKilled (serve_until events) ⊎ HasServed events)
unfolding serve_until
serve_until-IsKilled [] = (tt, inr (inl refl))
serve_until-IsKilled (signalled ∷ es) = (tt, inr (inr refl))
serve_until-IsKilled (grpc_listened none ∷ es) =
    let (quiet, h) = serve_until-IsKilled es in
    ((refl, quiet), past (serve_grpc ∷ []) (serve_until es) (refl, tt) h)
serve_until-IsKilled (grpc_listened (some e) ∷ es) = (tt, inl (e, refl, tt))
serve_until-IsKilled (grpc_ended none ∷ es) = serve_until-IsKilled es
serve_until-IsKilled (grpc_ended (some e) ∷ es) = (tt, inl (e, refl, tt))
serve_until-IsKilled (http_ended server_closed ∷ es) = serve_until-IsKilled es
serve_until-IsKilled (http_ended (serve_failed e) ∷ es) = (tt, inl (e, refl, tt))

run_servers-IsKilled : (events : List Event) → IsKilled (run_servers events) ⊎ HasServed events
unfolding run_servers
run_servers-IsKilled events =
    past (listen "[::]:50051" ∷ listen_and_serve ":8080" ∷ [])
      (serve_until events >> shutdown_servers) (refl, (refl, tt))
      (elim ((serve_until-IsKilled events).1) [
        | inl killed ↦ inl (>>=-IsKilled (serve_until events) (λ _. shutdown_servers) killed)
        | inr served ↦ inr served
      ])

-- The answers to the steps of the set-up behind the opening of the database.
abbrev Connected : Libraries → List Event → Type 0
Connected L events =
    (L.redis_metrics_error ≡ none)
    × ((L.producer_error (kafka_brokers L.getenv) ≡ none) × HasServed events)

module _ (L : Libraries) (events : List Event) where
  -- What follows the opening of the producer, of the database, and of the tracer.
  abbrev served : Run (Unit {0})
  served = deferring close (behind repository_calls (run_servers events))

  abbrev connected : Run (Unit {0})
  connected =
      deferring (unregister L.is_registered)
        (deferring (call close_database) (with_database L events))

  served-IsKilled : IsKilled served ⊎ HasServed events
  served-IsKilled =
      deferred close (behind repository_calls (run_servers events)) (
        past repository_calls (run_servers events) (refl, (refl, tt)) (run_servers-IsKilled events))

  new_kafka_producer-IsKilled :
      IsKilled (new_kafka_producer L.producer_error (kafka_brokers L.getenv))
      ⊎ (IsThrough (new_kafka_producer L.producer_error (kafka_brokers L.getenv))
          × (L.producer_error (kafka_brokers L.getenv) ≡ none))
  unfolding new_kafka_producer
  new_kafka_producer-IsKilled =
      call_fatal-IsKilled (new_producer producer_config (kafka_brokers L.getenv))
        (L.producer_error (kafka_brokers L.getenv)) refl

  with_database-IsKilled : IsKilled (with_database L events) ⊎ Connected L events
  unfolding with_database new_product_repository
  with_database-IsKilled =
      let produced = new_kafka_producer L.producer_error (kafka_brokers L.getenv) >> served in
      past (new_redis (redis_address L.getenv) ∷ instrument_redis ∷ [])
        (fatal_if L.redis_metrics_error >> produced) (refl, (refl, tt))
        (then-IsKilled (fatal_if L.redis_metrics_error) (λ _. produced)
          (fatal_if-IsKilled L.redis_metrics_error)
          λ _.
            then-IsKilled (new_kafka_producer L.producer_error (kafka_brokers L.getenv))
              (λ _. served) new_kafka_producer-IsKilled λ _. served-IsKilled)

  connected-IsKilled : IsKilled connected ⊎ Connected L events
  connected-IsKilled =
      deferred (unregister L.is_registered)
        (deferring (call close_database) (with_database L events))
        (deferred (call close_database) (with_database L events) with_database-IsKilled)

  traced-IsKilled :
      IsKilled (traced L events)
      ⊎ ((L.open_error (connection_string L.getenv) ≡ none) × Connected L events)
  unfolding traced
  traced-IsKilled =
      past (open_database (connection_string L.getenv) ∷ [])
        (fatal_if (L.open_error (connection_string L.getenv))
          >> behind (register_metrics ∷ []) connected)
        (refl, tt)
        (then-IsKilled (fatal_if (L.open_error (connection_string L.getenv)))
          (λ _. behind (register_metrics ∷ []) connected)
          (fatal_if-IsKilled (L.open_error (connection_string L.getenv)))
          λ _. past (register_metrics ∷ []) connected (refl, tt) connected-IsKilled)

  -- The exporter and the resource.
  abbrev Traced : Type 0
  Traced =
      (L.tracing.exporter_error (L.getenv "OTEL_COLLECTOR_ADDR") ≡ none)
      × (L.tracing.resource_error "inventory-api" ≡ none)

  init_tracer-IsKilled :
      IsKilled (init_tracer L.tracing "inventory-api" (L.getenv "OTEL_COLLECTOR_ADDR"))
      ⊎ (IsThrough (init_tracer L.tracing "inventory-api" (L.getenv "OTEL_COLLECTOR_ADDR"))
          × Traced)
  unfolding init_tracer
  init_tracer-IsKilled =
      let exporter_error = fatal_if (L.tracing.exporter_error (L.getenv "OTEL_COLLECTOR_ADDR")) in
      let resource_error = fatal_if (L.tracing.resource_error "inventory-api") in
      let provided : Run (Unit {0}) = call set_tracer_provider >> call set_propagator in
      let described = behind (new_resource "inventory-api" ∷ []) (resource_error >> provided) in
      elim (past (new_exporter (L.getenv "OTEL_COLLECTOR_ADDR") ∷ []) (exporter_error >> described)
        (refl, tt)
        (then-IsKilled exporter_error (λ _. described) (fatal_if-IsKilled _)
          λ _.
            past (new_resource "inventory-api" ∷ []) (resource_error >> provided) (refl, tt)
              (then-IsKilled {Q = Unit {0}} resource_error (λ _. provided) (fatal_if-IsKilled _)
                λ _. inr tt))) [
                  | inl killed ↦ inl killed
                  | inr (exporter_made, (resource_made, _)) ↦ inr (
                    (
                      tracer_calls L,
                      tt,
                      init_tracer_ok L exporter_made resource_made,
                      (refl, (refl, (refl, (refl, tt)))),
                    ),
                    (exporter_made, resource_made),
                  )
                ]

  -- Whatever the environment, the libraries and the course of events, the process is killed by
  -- `log.Fatal` and has closed nothing, neither server, database nor tracer; or each step of the
  -- set-up went well and neither server failed before the signal.
  pub main-IsKilled : IsKilled (main L events) ⊎ (SetUp L × HasServed events)
  unfolding main
  main-IsKilled =
      let traced_run = deferring (shutdown_tracing L.tracing) (traced L events) in
      let tracer = init_tracer L.tracing "inventory-api" (L.getenv "OTEL_COLLECTOR_ADDR") in
      elim (past (init_logger ∷ []) (tracer >> traced_run) (refl, tt)
        (then-IsKilled tracer (λ _. traced_run) init_tracer-IsKilled
          λ _. deferred (shutdown_tracing L.tracing) (traced L events) traced-IsKilled)) [
            | inl killed ↦ inl killed
            | inr ((exporter_made, resource_made), (opened, (measured, (produced, served)))) ↦
                inr ((exporter_made, resource_made, opened, measured, produced), served)
          ]
