-- ===== src/Process.antt =====
-- What a `main` does to its surroundings: the calls of libraries that it makes, in order, and how
-- it ends. What the libraries answer is a record of values; each is asked once.
pub mod Laws
use belajar_backend_go_v.Base.{ℕ, Bool, Option, none, some, List, [], ◌∷◌, ◌++◌, String}
use belajar_backend_go_v.Services.{GoError}
use belajar_backend_go_v.Resiliency.{Settings}

-- What the program sets of a `sarama.Config` for its producer.
pub record ProducerConfig : Type 0 where
  pub return_successes : Bool
  pub wait_for_all : Bool
  pub retry_max : ℕ

-- The calls that open, close or serve something. The texts are addresses and names.
pub data Effect : Type 0 where
  init_logger set_tracer_provider set_propagator shutdown_tracer : Effect
  new_exporter new_resource : String → Effect
  open_database : String → Effect
  new_breaker : Settings → Effect
  new_rate_limiter : ℕ → ℕ → Effect
  register_metrics unregister_metrics close_database : Effect
  new_redis : String → Effect
  instrument_redis close_redis : Effect
  new_producer : ProducerConfig → List String → Effect
  close_producer : Effect
  listen : String → Effect
  serve_grpc : Effect
  listen_and_serve : String → Effect
  shutdown_http : Effect
  new_elastic : String → Effect
  elastic_info close_body : Effect
  new_consumer_group : List String → String → Effect
  consume_topics : List String → Effect
  cancel_context close_group : Effect

-- `log.Fatal` exits with status 1 and runs no deferred call; a panic runs them. `running`: the
-- process has not ended yet.
pub data Exit : Type 0 where
  running : Exit
  fatal panicked : GoError → Exit

pub data Step {ℓ} (A : Type ℓ) : Type ℓ where
  next : A → Step A
  stop : Exit → Step A

abbrev pub Run {ℓ} : Type ℓ → Type ℓ
Run A = List Effect × Step A

-- The calls of a first part in front of those of a second.
abbrev pub behind {ℓ} : {A : Type ℓ} → List Effect → Run A → Run A
behind before (after, s) = (before ++ after, s)

infixl 5 ◌>>=◌ ◌>>◌
abbrev pub ◌>>=◌ {ℓ κ} : {A : Type ℓ} {B : Type κ} → Run A → (A → Run B) → Run B
(before, next a) >>= k = behind before (k a)
(before, stop e) >>= k = (before, stop e)

abbrev pub ◌>>◌ {ℓ} : {B : Type ℓ} → Run (Unit {0}) → Run B → Run B
m >> k = m >>= λ _. k

abbrev pub give {ℓ} : {A : Type ℓ} → A → Run A
give a = ([], next a)

abbrev pub call : Effect → Run (Unit {0})
call e = (e ∷ [], next tt)

-- `if err != nil { log.Fatal(err) }`, and the same with `log.Panic`.
abbrev pub fatal_if : Option GoError → Run (Unit {0})
fatal_if none = give tt
fatal_if (some e) = ([], stop (fatal e))

abbrev pub panic_if : Option GoError → Run (Unit {0})
panic_if none = give tt
panic_if (some e) = ([], stop (panicked e))

-- `defer late()` in front of the rest of a function.
abbrev pub after_body {ℓ} : {A : Type ℓ} → Run (Unit {0}) → Step A → Run A
after_body late (next a) = late >> give a
after_body late (stop (panicked e)) = late >> ([], stop (panicked e))
after_body late (stop (fatal e)) = ([], stop (fatal e))
after_body late (stop running) = ([], stop running)

abbrev pub deferring {ℓ} : {A : Type ℓ} → Run (Unit {0}) → Run A → Run A
deferring late (before, s) = behind before (after_body late s)
