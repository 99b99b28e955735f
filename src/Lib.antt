-- ===== src/Lib.antt =====
-- belajar-backend-go: an inventory API in Go (products, checkout, users) over PostgreSQL, Redis and
-- Kafka, and a worker that reads Kafka and writes Elasticsearch.
--
-- The program. `main.go` puts a rate limiter (middleware/ratelimit.go) in front of a mux whose routes
-- run behind a logger (middleware/logger_middlewate.go), and, where they are not public, behind the
-- check of a token and of the role "admin" (middleware/auth_middleware.go, utils/jwt.go). The handlers
-- (handler/) decode and validate a body, call a repository (repository/) and answer in one envelope
-- (utils/response.go). The repository of products caches in Redis, reads lists past a circuit breaker
-- (pkg/resiliency/breaker.go), sells in a transaction, and sends events (internal/event) and invoice
-- tasks (internal/worker/contract.go) through pkg/stream/producer.go. The worker (cmd/worker/main.go)
-- takes the events into the search index; internal/worker/processor.go is an older queue in Redis.
--
-- The files.
--   Base, Base/: numbers, the integers `int` with wrap-around, lists. Strconv: `%d` and `Atoi`.
--   Json: values of encoding/json and how a struct is decoded. Http, Net: what net/http and net do.
--   Models, Models/Codec: models/, internal/event, internal/worker/contract.go, and their JSON.
--   Models/RoundTrip: decoding what was encoded.
--   Services: PostgreSQL, Redis, Kafka, the breaker and the validator as interfaces; Services/Laws:
--     what the code relies on of them; Repository/Contract: the same of each SQL statement;
--     Repository/Memory: an implementation in memory that meets all of it.
--   Process: the calls of a `main` and how it ends, `defer` and `log.Fatal`; Environment: reading
--     variables. Server: `main` of main.go; Server/Lifecycle and Server/Crash: how it ends.
--   Telemetry: pkg/telemetry/init.go. Elastic: pkg/search/elastic.go. Stream: pkg/stream/producer.go.
--   Repository/Product: `GetAll`, `GetByID`, `Create`, `Update`, `Delete` of
--     repository/product_repo.go; below it Keys, Coherence, Reads, Writes, Staleness, Paging,
--     and Race, where other requests come between the parts of a read.
--   Repository/Checkout: `Checkout`; below it Atomic (one), Conservation (any run of them) and
--     Concurrent (many at once, on a database that locks rows, as in Repository/Memory/Shared); and
--     Handler/Checkout/Runs the same through the handler.
--   Repository/User: repository/user_repo.go.
--   Utils/: utils/response.go, utils/password.go and utils/jwt.go, over bcrypt and golang-jwt.
--   Handler/: handler/product_handler.go (Product, Checkout), handler/auth_handler.go (Auth) and
--     handler/grpc_handler.go (Grpc), with what their answers say below each.
--   Middleware/: middleware/auth_middleware.go (Auth), middleware/logger_middlewate.go and
--     middleware/response_writer.go (Logger), middleware/ratelimit.go (RateLimit).
--   Resiliency: pkg/resiliency/breaker.go. Routes: the mux and the stacks of main.go.
--   Http/Once, Handler/Once, Middleware/Once, Routes/Once: that each request is answered once.
--   Worker/: cmd/worker/main.go (Main, Search, Consumer) and internal/worker/processor.go (Processor).
--   Tests/: concrete services, runs, and the theorems at concrete inputs.
--
-- How it is modelled. State is passed on: the repository works on a `World` (the connection, the
-- cache, the log of the broker, the circuit), a handler takes the state behind it and returns an
-- outcome, which is an answer or a panic. An error is a value, a nil error `none`. What a call takes
-- from outside (the time, a salt, a request id, a random number, JWT_SECRET) is an argument. `int` is
-- an integer, with `wrap64` where the program computes; a number from JSON or `Atoi` lies in 64 bits.
-- A body or a cached text is malformed or a JSON value. Each loop is recursion on the list that it
-- runs over (rows, messages, members of an object); no fuel is used. The limiter's map holds places
-- in a heap, since the program shares pointers. Each handler is atomic, but in
-- Repository/Product/Race a read is two steps, its query and its `Set`, and a write is one; in
-- Repository/Checkout/Concurrent each call of a transaction is a step, beside the statements of
-- `Update` and `Delete`; and in Middleware/RateLimit/Interleaved `getLimiter`, `Allow` and the
-- cleanup are.
-- A `main` gives the list of its library calls and its exit; what the libraries answer is a record,
-- and what comes up while it serves a list of events.
--
-- Not modelled: generated code (docs/, pb/), what is only logged, durations and timeouts, and what
-- happens to a server's goroutine during the shutdown.
pub mod Base
pub mod Elastic
pub mod Environment
pub mod Handler
pub mod Http
pub mod Json
pub mod Middleware
pub mod Models
pub mod Net
pub mod Process
pub mod Repository
pub mod Resiliency
pub mod Routes
pub mod Server
pub mod Services
pub mod Strconv
pub mod Stream
pub mod Telemetry
pub mod Tests
pub mod Utils
pub mod Worker
