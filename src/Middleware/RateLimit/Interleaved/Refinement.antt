-- ===== src/Middleware/RateLimit/Interleaved/Refinement.antt =====
-- The pointers of middleware/ratelimit.go against limiters that are kept apart by address and time.
use belajar_backend_go_v.Base.{
  ℕ, ◌≡◌, refl, inl, inr, Option, none, List, [], ◌∷◌, String, Option-cases,
}
use belajar_backend_go_v.Middleware.RateLimit.{Limiters, lookup, get_limiter, new_ip_rate_limiter}
use belajar_backend_go_v.Middleware.RateLimit.Interleaved.{
  Event, arrive, decide, round, Serving, idle, answers, Keyed, all_new, keyed_answers,
}
use belajar_backend_go_v.Middleware.RateLimit.Interleaved.Places.{
  Refines, round-Refines, decide-Refines, Points-cases,
}
use belajar_backend_go_v.Middleware.RateLimit.Interleaved.Arrivals.{
  arrive-Refines_known, arrive-Refines_new,
}

module _ (R : Limiters) where
  open R use {Limiter, new_limiter, allow}

  answers-from :
      (events : List Event) (place : String → ℕ → Option ℕ) (s : Serving R) (k : Keyed R)
      → Refines R place s k
      → answers R events s ≡ keyed_answers R events k
  unfolding answers keyed_answers get_limiter
  answers-from [] place s k r = refl
  answers-from (round ∷ events) place s k r =
      answers-from events place _ _ (round-Refines R place s k r)
  answers-from (arrive id ip ∷ events) place s k r = elim (Option-cases (lookup ip s.limiter.ips)) [
    | inr (p, known) ↦
        rw (known, get_limiter)
          (answers-from events place _ _ (arrive-Refines_known R place s k id ip p r known))
    | inl unknown ↦
        rw (unknown, get_limiter)
          (answers-from events _ _ _ (arrive-Refines_new R place s k r ip unknown id))
  ]
  answers-from (decide now id ∷ events) place s k r =
      elim (Points-cases R place (s.pointers id) (k.keys id) (r.held id)) [
        | inl (nowhere, unkeyed) ↦
            rw (nowhere, unkeyed, answers, keyed_answers) (answers-from events place s k r)
        | inr (p, ip, g, at, key, known) ↦
            let (allowed, r') = decide-Refines R place s k now ip g p r known in
            rw (at, key, answers, keyed_answers)
              (let later = answers-from events place _ _ r' in cc (allowed, later))
      ]

  -- From a new rate limiter on, in any interleaving of `getLimiter`, `Allow` and cleanups, the
  -- requests get the answers that they would get if each address had, for each time between two
  -- cleanups, a limiter of its own, which the requests ask that came from there in that time.
  pub answers-eq-keyed :
      (events : List Event) → answers R events (idle R) ≡ keyed_answers R events (all_new R)
  unfolding idle all_new new_ip_rate_limiter lookup
  answers-eq-keyed events =
      answers-from events (λ ip g. none) (idle R) (all_new R)
        (record {
          current = λ ip. refl;
          later = λ ip g after. refl;
          inside = λ ip g p e. absurd (cc e);
          apart = λ ip j g h p e. absurd (cc e);
          here = λ ip g. refl;
          held = λ id. tt;
        })
