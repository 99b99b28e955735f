-- ===== src/Tests/Server.antt =====
-- The server of main.go: its life, and one request through all of it.
use belajar_backend_go_v.Base.{◌≡◌, ◌≢◌, ◌⊎◌, refl, true, none, [], ◌∷◌, ◌++◌, length}
use belajar_backend_go_v.Services.{World}
use belajar_backend_go_v.Process.{
  stop, running, listen, serve_grpc, listen_and_serve, shutdown_http, close_redis, close_producer,
  close_database, unregister_metrics, shutdown_tracer, next,
}
use belajar_backend_go_v.Process.Laws.{IsKilled}
use belajar_backend_go_v.Server.{Libraries, grpc_listened, signalled, serve_until, main}
use belajar_backend_go_v.Server.Lifecycle.{SetUp, set_up_calls, main_stopped}
use belajar_backend_go_v.Server.Crash.{HasServed, main-IsKilled}
use belajar_backend_go_v.Http.{Response, fresh_response, http_writer, Handler, done}
use belajar_backend_go_v.Middleware.Logger.{Logged}
use belajar_backend_go_v.Middleware.RateLimit.{Limited, new_ip_rate_limiter}
use belajar_backend_go_v.Repository.Memory.{memory}
use belajar_backend_go_v.Routes.{final_handler, route_path}
use belajar_backend_go_v.Routes.Once.{IsOwn, final_handler-AnswersOnce}
use belajar_backend_go_v.Tests.Fixtures.{tag_validator}
use belajar_backend_go_v.Tests.Accounts.{plain_bcrypt, one_token, one_token-IsJwt}
use belajar_backend_go_v.Tests.Access.{delete_request, call, quiet, not_here}
use belajar_backend_go_v.Tests.Basics.{two_tokens}

abbrev all_well : Libraries
all_well = record {
  getenv = λ name. "";
  tracing = record {
    exporter_error = λ address. none;
    resource_error = λ service. none;
    shutdown_error = none;
  };
  open_error = λ text. none;
  is_registered = true;
  redis_metrics_error = none;
  producer_error = λ brokers. none;
}

still_up : (serve_until (grpc_listened none ∷ [])).1 ≡ stop running
unfolding serve_until
still_up = refl

main_stopped_example : main all_well (grpc_listened none ∷ signalled ∷ []) ≡ (
  set_up_calls all_well
      ++ (listen "[::]:50051"
          ∷ listen_and_serve ":8080"
          ∷ serve_grpc
          ∷ shutdown_http
          ∷ close_redis
          ∷ close_producer
          ∷ close_database
          ∷ unregister_metrics
          ∷ shutdown_tracer
          ∷ []),
  next tt,
)
unfolding serve_until
main_stopped_example =
    main_stopped all_well (grpc_listened none ∷ []) [] (refl, refl, refl, refl, refl) still_up

main-IsKilled_example :
    IsKilled (main all_well (grpc_listened none ∷ []))
    ⊎ (SetUp all_well × HasServed (grpc_listened none ∷ []))
main-IsKilled_example = main-IsKilled all_well (grpc_listened none ∷ [])

abbrev server : Limited two_tokens (Logged (World memory))
server = record { state = quiet; limiter = new_ip_rate_limiter two_tokens }

abbrev as_it_is :
    Handler Response (Logged (World memory)) → Handler Response (Logged (World memory))
as_it_is h = h

IsOwn-route : IsOwn (route_path "DELETE" ("products" ∷ "1" ∷ []))
unfolding route_path
IsOwn-route = tt

final_handler-AnswersOnce_example :
    (w : Response) × (st' : Limited two_tokens (Logged (World memory))) × (final_handler memory
        tag_validator plain_bcrypt one_token "" not_here not_here two_tokens as_it_is call
        delete_request fresh_response server
      ≡ done w st')
    × (w.sent ≢ none)
    × (length w.content ≡ 1)
final_handler-AnswersOnce_example =
    final_handler-AnswersOnce memory tag_validator plain_bcrypt one_token one_token-IsJwt ""
      not_here not_here two_tokens as_it_is (λ h. refl) call delete_request server IsOwn-route
