-- ===== src/Process/Laws.antt =====
-- `log.Fatal` ends a process on the spot: what is deferred does not run, and nothing is closed.
use belajar_backend_go_v.Base.{
  ◌≡◌, ◌⊎◌, inl, inr, refl, ap, Bool, true, false, Option, none, some, List, [], ◌∷◌, ◌++◌, arith,
}
use belajar_backend_go_v.Services.{GoError}
use belajar_backend_go_v.Process.{
  Effect, shutdown_tracer, unregister_metrics, close_database, close_redis, close_producer,
  shutdown_http, cancel_context, close_group, Run, running, fatal, panicked, next, stop, ◌>>=◌,
  ◌>>◌, behind, call, fatal_if, deferring,
}

-- The calls that close what is open.
abbrev pub is_closing : Effect → Bool
is_closing shutdown_tracer = true
is_closing unregister_metrics = true
is_closing close_database = true
is_closing close_redis = true
is_closing close_producer = true
is_closing shutdown_http = true
is_closing cancel_context = true
is_closing close_group = true
is_closing _ = false

abbrev pub NothingClosed : List Effect → Type 0
NothingClosed [] = Unit
NothingClosed (e ∷ es) = (is_closing e ≡ false) × NothingClosed es

pub NothingClosed-append :
    (xs ys : List Effect) → NothingClosed xs → NothingClosed ys → NothingClosed (xs ++ ys)
NothingClosed-append [] ys hx hy = hy
NothingClosed-append (x ∷ xs) ys hx hy = (hx.0, NothingClosed-append xs ys hx.1 hy)

module _ {ℓ} {A : Type ℓ} where
  -- The process was killed with everything open.
  abbrev pub IsKilled : Run A → Type ℓ
  IsKilled m = (e : GoError) × (m.1 ≡ stop (fatal e)) × NothingClosed m.0

  -- A part that ran to its end and closed nothing.
  abbrev pub IsThrough : Run A → Type ℓ
  IsThrough m = (t : List Effect) × (a : A) × (m ≡ (t, next a)) × NothingClosed t

  pub behind-IsKilled :
      (t : List Effect) (m : Run A) → NothingClosed t → IsKilled m → IsKilled (behind t m)
  behind-IsKilled t m quiet (e, dead, rest) = (e, dead, NothingClosed-append t m.0 quiet rest)

  -- The deferred call does not run.
  pub deferring-IsKilled :
      (late : Run (Unit {0})) (m : Run A) → IsKilled m → IsKilled (deferring late m)
  deferring-IsKilled late (t, next a) (e, dead, quiet) = absurd (ground (arith, dead))
  deferring-IsKilled late (t, stop running) (e, dead, quiet) = absurd (ground (arith, dead))
  deferring-IsKilled late (t, stop (panicked x)) (e, dead, quiet) = absurd (ground (arith, dead))
  deferring-IsKilled late (t, stop (fatal x)) (e, dead, quiet) =
      (e, dead, NothingClosed-append t [] quiet tt)

module _ {ℓ κ} {A : Type ℓ} {B : Type κ} where
  pub >>=-IsKilled : (m : Run A) (k : A → Run B) → IsKilled m → IsKilled (m >>= k)
  >>=-IsKilled (t, next a) k (e, dead, quiet) = absurd (ground (arith, dead))
  >>=-IsKilled (t, stop x) k (e, dead, quiet) =
      let same : x ≡ fatal e = ground (arith, dead) in (e, ap stop same, quiet)

  pub then-IsKilled {μ ν} :
      {P : Type μ} {Q : Type ν} (m : Run A) (k : A → Run B)
      → IsKilled m ⊎ (IsThrough m × P)
      → ((a : A) → IsKilled (k a) ⊎ Q)
      → IsKilled (m >>= k) ⊎ (P × Q)
  then-IsKilled m k (inl killed) rest = inl (>>=-IsKilled m k killed)
  then-IsKilled m k (inr ((t, a, e, quiet), p)) rest = elim (rest a) [
    | inl killed ↦ inl (rw e (behind-IsKilled t (k a) quiet killed))
    | inr q ↦ inr (p, q)
  ]

-- The same where the part may go on, and then something holds.
module _ {ℓ κ} {A : Type ℓ} {Q : Type κ} where
  pub past :
      (t : List Effect) (m : Run A) → NothingClosed t → IsKilled m ⊎ Q → IsKilled (behind t m) ⊎ Q
  past t m quiet (inl killed) = inl (behind-IsKilled t m quiet killed)
  past t m quiet (inr q) = inr q

  pub deferred :
      (late : Run (Unit {0})) (m : Run A) → IsKilled m ⊎ Q → IsKilled (deferring late m) ⊎ Q
  deferred late m (inl killed) = inl (deferring-IsKilled late m killed)
  deferred late m (inr q) = inr q

pub fatal_if-IsKilled :
    (e : Option GoError) → IsKilled (fatal_if e) ⊎ (IsThrough (fatal_if e) × (e ≡ none))
fatal_if-IsKilled none = inr (([], tt, refl, tt), refl)
fatal_if-IsKilled (some e) = inl (e, refl, tt)

-- A call whose error is fatal.
pub call_fatal-IsKilled :
    (c : Effect) (e : Option GoError)
    → is_closing c ≡ false
    → IsKilled (call c >> fatal_if e) ⊎ (IsThrough (call c >> fatal_if e) × (e ≡ none))
call_fatal-IsKilled c none quiet = inr ((c ∷ [], tt, refl, (quiet, tt)), refl)
call_fatal-IsKilled c (some e) quiet = inl (e, refl, (quiet, tt))
