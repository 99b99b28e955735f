-- ===== src/Worker/Consumer/Loop.antt =====
-- How the loop around `Consume` in cmd/worker/main.go ends.
use belajar_backend_go_v.Base.{
  ◌≡◌, refl, Bool, true, false, Option, none, some, List, [], ◌∷◌, ◌++◌,
}
use belajar_backend_go_v.Services.{GoError}
use belajar_backend_go_v.Worker.Consumer.{panicked, returned, running, consume_loop}

-- Rounds in which `Consume` fails while the context goes on.
abbrev pub failures : List GoError → List (Option GoError × Bool)
failures [] = []
failures (e ∷ es) = (some e, false) ∷ failures es

consume_loop-failures :
    (es : List GoError) (rounds : List (Option GoError × Bool))
    → consume_loop (failures es ++ rounds) ≡ consume_loop rounds
unfolding consume_loop
consume_loop-failures [] rounds = refl
consume_loop-failures (e ∷ es) rounds = consume_loop-failures es rounds

-- Failures of `Consume`, however many, are tried again and never end the worker; the first round
-- that ends with no error panics, be the context done or not; and a failure once the context is
-- done ends the loop.
pub consume_loop_lem :
    (es : List GoError) (e : GoError) (done : Bool) (rounds : List (Option GoError × Bool))
    → (consume_loop (failures es) ≡ running)
      × (consume_loop (failures es ++ (none, done) ∷ rounds) ≡ panicked)
      × (consume_loop (failures es ++ (some e, true) ∷ rounds) ≡ returned)
unfolding consume_loop
consume_loop_lem es e done rounds = (
  all es,
  consume_loop-failures es ((none, done) ∷ rounds),
  consume_loop-failures es ((some e, true) ∷ rounds),
)
  where
    all : (es : List GoError) → consume_loop (failures es) ≡ running
    all [] = refl
    all (e ∷ es) = all es
