-- ===== src/Resiliency.antt =====
-- pkg/resiliency/breaker.go: the settings of the database's circuit breaker.
pub mod Trip
use belajar_backend_go_v.Base.{ℕ, ◌*◌, Bool, ◌&&◌, String, leb}

-- `gobreaker.Counts`, whose fields are of 32 bits.
pub record Counts : Type 0 where
  pub requests : ℕ
  pub total_failures : ℕ

-- `gobreaker.Settings`, the durations in seconds.
pub record Settings : Type 0 where
  pub name : String
  pub max_requests : ℕ
  pub interval : ℕ
  pub timeout : ℕ
  pub ready_to_trip : Counts → Bool

-- `failureRatio >= 0.6` in float64. The quotient of two numbers of 32 bits is rounded to the value
-- of the constant 0.6 exactly where it is three fifths, and two such quotients lie too far apart
-- for another one to be rounded past it; so the test is that of the fractions.
unfoldable pub ready_to_trip : Counts → Bool
ready_to_trip c =
    leb 3 c.requests && (leb 3 c.total_failures && leb (3 * c.requests) (5 * c.total_failures))

unfoldable pub new_database_breaker : String → Settings
new_database_breaker name = record {
  name = name;
  max_requests = 1;
  interval = 60;
  timeout = 30;
  ready_to_trip = ready_to_trip;
}
