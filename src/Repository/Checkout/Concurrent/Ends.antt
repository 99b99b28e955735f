-- ===== src/Repository/Checkout/Concurrent/Ends.antt =====
-- Checkouts among others end: none makes more than its four calls of database/sql.
use belajar_backend_go_v.Base.{
  ◌≡◌, refl, ◌⊎◌, inl, inr, List, [], ◌∷◌, ℕ, suc, ◌≤◌, ◌-◌, ℤ, arith, ◌==◌, if◌then◌else◌,
}
use belajar_backend_go_v.Services.{GoError}
use belajar_backend_go_v.Repository.Checkout.Conservation.{Order}
use belajar_backend_go_v.Repository.Checkout.Concurrent.{
  Turn, call, write, take_turn, SharedDatabase, Phase, ready, begun, reserved, recorded, sold,
  failed, advance, Running, run,
}

abbrev pub IsEnded : Phase → Type 0
IsEnded phase = ((total : ℤ) × (phase ≡ sold total)) ⊎ ((e : GoError) × (phase ≡ failed e))

-- How often a request has its turn in a schedule.
abbrev pub turns : ℕ → List Turn → ℕ
turns n [] = 0
turns n (write x ∷ schedule) = turns n schedule
turns n (call m ∷ schedule) = let rest = turns n schedule in if n == m then suc rest else rest

abbrev calls_left : Phase → ℕ
calls_left ready = 4
calls_left begun = 3
calls_left (reserved _) = 2
calls_left (recorded _) = 1
calls_left (sold _) = 0
calls_left (failed _) = 0

calls_left_none : (phase : Phase) → calls_left phase ≡ 0 → IsEnded phase
calls_left_none ready e = absurd (omega (arith, e))
calls_left_none begun e = absurd (omega (arith, e))
calls_left_none (reserved _) e = absurd (omega (arith, e))
calls_left_none (recorded _) e = absurd (omega (arith, e))
calls_left_none (sold total) e = inl (total, refl)
calls_left_none (failed f) e = inr (f, refl)

module _ (D : SharedDatabase) (orders : ℕ → Order) where
  calls_left-advance :
      (n : ℕ) (o : Order) (phase : Phase) (d : D.Db)
      → calls_left (advance D n o phase d).0 ≤ calls_left phase - 1
  unfolding advance
  calls_left-advance n o ready d = ground arith
  calls_left-advance n o begun d = ground arith
  calls_left-advance n o (reserved price) d = ground arith
  calls_left-advance n o (recorded total) d = ground arith
  calls_left-advance n o (sold total) d = ground arith
  calls_left-advance n o (failed e) d = ground arith

  calls_left-run :
      (schedule : List Turn) (n : ℕ) (s : Running D)
      → calls_left (s.phases n) ≤ turns n schedule
      → calls_left ((run D orders schedule s).phases n) ≡ 0
  unfolding run take_turn
  calls_left-run [] n s few = omega (arith, few)
  calls_left-run (write x ∷ schedule) n s few = calls_left-run schedule n _ few
  calls_left-run (call m ∷ schedule) n s few =
      calls_left-run schedule n _
        (ground (arith, few, calls_left-advance m (orders m) (s.phases m) s.db))

  pub run-IsEnded :
      (schedule : List Turn) (d : D.Db) (n : ℕ)
      → 4 ≤ turns n schedule
      → IsEnded ((run D orders schedule (record { db = d; phases = λ m. ready })).phases n)
  run-IsEnded schedule d n enough =
      calls_left_none _ (calls_left-run schedule n (record { db = d; phases = λ m. ready }) enough)
