-- ===== src/Middleware/RateLimit.antt =====
-- middleware/ratelimit.go, over the token buckets of golang.org/x/time/rate.
pub mod Isolation
pub mod Runs
pub mod Decision
pub mod Interleaved
use package.text.Mathlib.Text.{◌==◌ as str_eq}
use belajar_backend_go_v.Base.{
  ℕ, zero, suc, Bool, Option, none, some, List, [], ◌∷◌, ◌++◌, String, if◌then◌else◌, length,
  get_or, set,
}
use belajar_backend_go_v.Net.{split_host}
use belajar_backend_go_v.Http.{Request, ResponseWriter, Outcome, done, panic, Handler}
use belajar_backend_go_v.Utils.Response.{response_error}

-- A limiter as `rate.NewLimiter(i.r, i.b)` makes it, and `Allow` at a time.
pub record Limiters : Type 1 where
  pub Limiter : Type 0
  pub new_limiter : Limiter
  pub allow : ℕ → Limiter → Bool × Limiter

unfoldable pub lookup : String → List (String × ℕ) → Option ℕ
lookup ip [] = none
lookup ip ((j, p) ∷ ips) = if str_eq j ip then some p else lookup ip ips

module _ (R : Limiters) where
  open R use {Limiter, new_limiter, allow}

  -- `IPRateLimiter`. The map holds pointers: `ips` gives a place in `heap`, where the limiters
  -- stand, also those that the map has forgotten.
  pub record IpRateLimiter : Type 0 where
    pub ips : List (String × ℕ)
    pub heap : List Limiter

  unfoldable pub new_ip_rate_limiter : IpRateLimiter
  new_ip_rate_limiter = record { ips = []; heap = [] }

  -- `getLimiter`: the pointer, and the state.
  unfoldable pub get_limiter : String → IpRateLimiter → ℕ × IpRateLimiter
  unfolding lookup
  get_limiter ip s = elim (lookup ip s.ips) [
    | some p ↦ (p, s)
    | none ↦ (
      length s.heap,
      record { ips = (ip, length s.heap) ∷ s.ips; heap = s.heap ++ new_limiter ∷ [] },
    )
  ]

  -- `limiter.Allow()` on the limiter behind a pointer.
  unfoldable pub allow_at : ℕ → ℕ → IpRateLimiter → Bool × IpRateLimiter
  allow_at now p s =
      let (allowed, l) = allow now (get_or s.heap p new_limiter) in
      (allowed, record s { heap = set s.heap p l })

  -- One round of `cleanupVisitors`.
  unfoldable pub cleanup_visitors : IpRateLimiter → IpRateLimiter
  cleanup_visitors s = record s { ips = [] }

  -- The limiter's part of a request.
  unfoldable pub admit : ℕ → String → IpRateLimiter → Bool × IpRateLimiter
  unfolding get_limiter allow_at
  admit now ip s = let (p, s') = get_limiter ip s in allow_at now p s'

  -- The limiter beside the state of the handler.
  pub record Limited (St : Type 0) : Type 0 where
    pub state : St
    pub limiter : IpRateLimiter

  module _ {W St : Type 0} ⦃rw : ResponseWriter W⦄ where
    abbrev pub beside : IpRateLimiter → Outcome W St → Outcome W (Limited St)
    beside l (done w st) = done w (record { state = st; limiter = l })
    beside l (panic st) = panic (record { state = st; limiter = l })

    unfoldable pub limit : ℕ → Handler W St → Handler W (Limited St)
    unfolding admit
    limit now next r w st = elim (split_host r.remote_addr) [
      | none ↦ beside st.limiter (next r w st.state)
      | some ip ↦
          let (allowed, l) = admit now ip st.limiter in
          if allowed
          then beside l (next r w st.state)
          else done (response_error 429 "Terlalu banyak request, santai dulu kawan" w)
              (record st { limiter = l })
    ]
