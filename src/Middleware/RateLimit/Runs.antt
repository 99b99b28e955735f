-- ===== src/Middleware/RateLimit/Runs.antt =====
-- Whole runs of middleware/ratelimit.go: the decisions on the requests of one address.
use package.text.Mathlib.Text.{◌==◌ as str_eq}
use package.text.Mathlib.TextEquality.{eq_iff}
use belajar_backend_go_v.Base.{
  ℕ, ◌≡◌, ◌≢◌, refl, ap, ◌∙◌, inl, inr, Bool, List, [], ◌∷◌, String, if◌then◌else◌, Bool-cases,
}
use belajar_backend_go_v.Middleware.RateLimit.{
  Limiters, IpRateLimiter, lookup, admit, cleanup_visitors, new_ip_rate_limiter,
}
use belajar_backend_go_v.Middleware.RateLimit.Isolation.{
  IsValid, limiter_of, admit-limiter_of, cleanup_visitors-limiter_of,
}

-- What happens to the limiter: a request of an address at a time, or a round of the cleanup.
pub data Event : Type 0 where
  request : ℕ → String → Event
  cleanup : Event

-- The decisions on the requests of one address, in a run over all events.
module _ (R : Limiters) where
  open R use {Limiter, new_limiter, allow}

  abbrev note_own : Bool → Bool → List Bool → List Bool
  note_own own allowed later = if own then allowed ∷ later else later

  unfoldable pub decisions : String → List Event → IpRateLimiter R → List Bool
  decisions ip [] s = []
  decisions ip (cleanup ∷ events) s = decisions ip events (cleanup_visitors R s)
  decisions ip (request now j ∷ events) s =
      note_own (str_eq j ip) (admit R now j s).0 (decisions ip events (admit R now j s).1)

  -- The decisions of one limiter that sees the requests of that address only, and is renewed at
  -- each cleanup.
  unfoldable pub own_decisions : String → List Event → Limiter → List Bool
  own_decisions ip [] l = []
  own_decisions ip (cleanup ∷ events) l = own_decisions ip events new_limiter
  own_decisions ip (request now j ∷ events) l =
      note_own (str_eq j ip) (allow now l).0
        (own_decisions ip events (if str_eq j ip then (allow now l).1 else l))

  decisions-from :
      (ip : String) (events : List Event) (s : IpRateLimiter R)
      → IsValid R s
      → decisions ip events s ≡ own_decisions ip events (limiter_of R ip s)
  unfolding decisions own_decisions
  decisions-from ip [] s v = refl
  decisions-from ip (cleanup ∷ events) s v =
      let (valid, fresh) = cleanup_visitors-limiter_of R s in
      decisions-from ip events (cleanup_visitors R s) valid
      ∙ ap (own_decisions ip events) (fresh ip)
  decisions-from ip (request now j ∷ events) s v =
      let (valid, allowed, own, others) = admit-limiter_of R now j s v in
      let later = decisions-from ip events (admit R now j s).1 valid in
      elim (Bool-cases (str_eq j ip)) [
        | inl same ↦
            let here : j ≡ ip = (eq_iff j ip).0 same in rw same (cc (here, later, allowed, own))
        | inr other ↦
            let apart : j ≢ ip = λ here. cc ((eq_iff j ip).1 here, other) in
            rw other (later ∙ ap (own_decisions ip events) (others ip apart))
      ]

  pub new_ip_rate_limiter-IsValid : IsValid R (new_ip_rate_limiter R)
  unfolding new_ip_rate_limiter lookup
  new_ip_rate_limiter-IsValid = record { inside = λ ip p e. cc; apart = λ ip j p e f. cc }

  limiter_of-new : (ip : String) → limiter_of R ip (new_ip_rate_limiter R) ≡ new_limiter
  unfolding limiter_of new_ip_rate_limiter lookup
  limiter_of-new ip = refl

  -- From a new rate limiter on, the decisions on the requests of an address are those of a single
  -- limiter that sees its requests alone: whatever other addresses do, they take none of its
  -- requests, and give it none.
  pub decisions-eq-own :
      (ip : String) (events : List Event)
      → decisions ip events (new_ip_rate_limiter R) ≡ own_decisions ip events new_limiter
  decisions-eq-own ip events =
      decisions-from ip events (new_ip_rate_limiter R) new_ip_rate_limiter-IsValid
      ∙ ap (own_decisions ip events) (limiter_of-new ip)
