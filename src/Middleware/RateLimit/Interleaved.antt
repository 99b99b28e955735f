-- ===== src/Middleware/RateLimit/Interleaved.antt =====
-- The steps of `Limit` in middleware/ratelimit.go that hold the mutex, of many requests at once.
-- Between its `getLimiter` and its `Allow` a request keeps a pointer, and other requests and the
-- cleanup may come in between.
pub mod Refinement
pub mod Places
pub mod Arrivals
use package.text.Mathlib.Text.{◌==◌ as str_eq}
use belajar_backend_go_v.Base.{
  ℕ, suc, ◌+◌, Bool, Option, none, some, List, [], ◌∷◌, String, ◌==◌, ◌&&◌, if◌then◌else◌,
}
use belajar_backend_go_v.Middleware.RateLimit.{
  Limiters, IpRateLimiter, get_limiter, allow_at, cleanup_visitors, new_ip_rate_limiter,
}

pub data Event : Type 0 where
  -- A request of an address calls `getLimiter`.
  arrive : ℕ → String → Event
  -- A request calls `Allow` at a time.
  decide : ℕ → ℕ → Event
  -- A round of the cleanup.
  round : Event

abbrev pub hold : {A : Type 0} → ℕ → A → (ℕ → Option A) → ℕ → Option A
hold id a held j = if j == id then some a else held j

abbrev pub put : {A : Type 0} → String → ℕ → A → (String → ℕ → A) → String → ℕ → A
put ip g a f j h = if str_eq ip j && g == h then a else f j h

module _ (R : Limiters) where
  open R use {Limiter, new_limiter, allow}

  -- The limiter, and the pointer that each request has been given.
  pub record Serving : Type 0 where
    pub limiter : IpRateLimiter R
    pub pointers : ℕ → Option ℕ

  unfoldable pub idle : Serving
  unfolding new_ip_rate_limiter
  idle = record { limiter = new_ip_rate_limiter R; pointers = λ id. none }

  -- The answers of `Allow`, with the requests they are for.
  unfoldable pub answers : List Event → Serving → List (ℕ × Bool)
  unfolding cleanup_visitors
  answers [] s = []
  answers (arrive id ip ∷ events) s =
      let (p, limiter) = get_limiter R ip s.limiter in
      answers events (record { limiter = limiter; pointers = hold id p s.pointers })
  answers (decide now id ∷ events) s = elim (s.pointers id) [
    | none ↦ answers events s
    | some p ↦
        let (allowed, limiter) = allow_at R now p s.limiter in
        (id, allowed) ∷ answers events (record s { limiter = limiter })
  ]
  answers (round ∷ events) s = answers events (record s { limiter = cleanup_visitors R s.limiter })

  -- The same without pointers: a limiter for each address and each time between two rounds, and
  -- for each request the address and the time it arrived in.
  pub record Keyed : Type 0 where
    pub rounds : ℕ
    pub limiter : String → ℕ → Limiter
    pub keys : ℕ → Option (String × ℕ)

  unfoldable pub all_new : Keyed
  all_new = record { rounds = 0; limiter = λ ip g. new_limiter; keys = λ id. none }

  unfoldable pub keyed_answers : List Event → Keyed → List (ℕ × Bool)
  keyed_answers [] k = []
  keyed_answers (arrive id ip ∷ events) k =
      keyed_answers events (record k { keys = hold id (ip, k.rounds) k.keys })
  keyed_answers (decide now id ∷ events) k = elim (k.keys id) [
    | none ↦ keyed_answers events k
    | some (ip, g) ↦
        let (allowed, l) = allow now (k.limiter ip g) in
        (id, allowed) ∷ keyed_answers events (record k { limiter = put ip g l k.limiter })
  ]
  keyed_answers (round ∷ events) k = keyed_answers events (record k { rounds = suc k.rounds })
