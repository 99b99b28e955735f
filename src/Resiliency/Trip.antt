-- ===== src/Resiliency/Trip.antt =====
-- When the circuit of `NewDatabaseBreaker` opens.
use belajar_backend_go_v.Base.{◌≡◌, ◌↔◌, true, ◌*◌, ◌≤◌, arith}
use belajar_backend_go_v.Resiliency.{Counts, ready_to_trip}

-- The circuit opens just where at least three requests failed and they are at least three fifths
-- of all.
pub ready_to_trip_lem :
    (c : Counts)
    → c.total_failures ≤ c.requests
    → (ready_to_trip c ≡ true) ↔ ((3 ≤ c.total_failures) × (3 * c.requests ≤ 5 * c.total_failures))
unfolding ready_to_trip
ready_to_trip_lem c h = ground arith
