-- ===== src/Middleware/RateLimit/Isolation.antt =====
-- An address is limited by its own requests alone.
use package.text.Mathlib.TextEquality.{eq_iff}
use belajar_backend_go_v.Base.{
  ℕ, ◌<◌, ◌≡◌, ◌≢◌, refl, ◌∙◌, ◌⊎◌, inl, inr, none, some, List, [], ◌∷◌, String, arith, length,
  get_or, length-append, length-set, get_or-set_self, get_or-set_ne, get_or-append_default,
  get_or-length, Option-cases,
}
use belajar_backend_go_v.Middleware.RateLimit.{
  Limiters, IpRateLimiter, lookup, get_limiter, allow_at, admit, cleanup_visitors,
}

lookup-cons :
    (ip j : String) (q p : ℕ) (ips : List (String × ℕ))
    → lookup j ((ip, q) ∷ ips) ≡ some p
    → ((ip ≡ j) × (p ≡ q)) ⊎ (lookup j ips ≡ some p)
unfolding lookup
lookup-cons ip j q p ips e = ground (arith, eq_iff ip j)

pub lookup-cons_self :
    (ip : String) (q : ℕ) (ips : List (String × ℕ)) → lookup ip ((ip, q) ∷ ips) ≡ some q
unfolding lookup
lookup-cons_self ip q ips = ground (arith, eq_iff ip ip)

pub lookup-cons_ne :
    (ip j : String) (q : ℕ) (ips : List (String × ℕ))
    → ip ≢ j
    → lookup j ((ip, q) ∷ ips) ≡ lookup j ips
unfolding lookup
lookup-cons_ne ip j q ips ne = ground (arith, eq_iff ip j)

module _ (R : Limiters) where
  open R use {Limiter, new_limiter, allow}

  -- Every pointer of the map is a place of the heap, and no two addresses share one.
  pub record IsValid (s : IpRateLimiter R) : Type 0 where
    pub inside : (ip : String) (p : ℕ) → lookup ip s.ips ≡ some p → p < length s.heap
    pub apart :
        (ip j : String) (p : ℕ) → lookup ip s.ips ≡ some p → lookup j s.ips ≡ some p → ip ≡ j

  -- The abstract view: each address has a limiter, a new one if the map does not know it.
  unfoldable pub limiter_of : String → IpRateLimiter R → Limiter
  limiter_of ip s = elim (lookup ip s.ips) [
    | none ↦ new_limiter
    | some p ↦ get_or s.heap p new_limiter
  ]

  get_limiter-IsValid :
      (ip : String) (s : IpRateLimiter R) → IsValid s → IsValid (get_limiter R ip s).1
  unfolding get_limiter
  get_limiter-IsValid ip s v = elim (Option-cases (lookup ip s.ips)) [
    | inr (p, known) ↦ rw (known, get_limiter) v
    | inl fresh ↦
        rw (fresh, get_limiter)
          (record {
            inside = λ j p e. elim (lookup-cons ip j (length s.heap) p s.ips e) [
              | inl (_, new) ↦ omega (arith, length-append s.heap (new_limiter ∷ []))
              | inr old ↦ omega (arith, v.inside j p old, length-append s.heap (new_limiter ∷ []))
            ];
            apart = λ i j p e f. elim (lookup-cons ip i (length s.heap) p s.ips e) [
              | inl (here, new) ↦ elim (lookup-cons ip j (length s.heap) p s.ips f) [
                | inl (there, _) ↦ cc
                | inr old ↦ absurd (omega (arith, v.inside j p old))
              ]
              | inr old ↦ elim (lookup-cons ip j (length s.heap) p s.ips f) [
                | inl (there, new) ↦ absurd (omega (arith, v.inside i p old))
                | inr old' ↦ v.apart i j p old old'
              ]
            ];
          })
  ]

  -- The pointer that `getLimiter` returns is that of the map afterwards, and no address has
  -- another limiter than before.
  get_limiter-pointer :
      (ip : String) (s : IpRateLimiter R)
      → let (p, s') = get_limiter R ip s in lookup ip s'.ips ≡ some p
  unfolding get_limiter
  get_limiter-pointer ip s = elim (Option-cases (lookup ip s.ips)) [
    | inr (p, known) ↦ rw (known, get_limiter) known
    | inl fresh ↦ rw (fresh, get_limiter) (lookup-cons_self ip (length s.heap) s.ips)
  ]

  limiter_of-get_limiter :
      (ip j : String) (s : IpRateLimiter R) → limiter_of j (get_limiter R ip s).1 ≡ limiter_of j s
  unfolding limiter_of get_limiter lookup
  limiter_of-get_limiter ip j s = elim (Option-cases (lookup j s.ips)) [
    | inr (q, known) ↦ ground (arith, eq_iff ip j, get_or-append_default s.heap q new_limiter)
    | inl unknown ↦ ground (
      arith,
      eq_iff ip j,
      get_or-append_default s.heap (length s.heap) new_limiter,
      get_or-length s.heap new_limiter,
    )
  ]

  -- `Allow` behind the pointer of an address changes the limiter of that address only.
  allow_at_lem :
      (now : ℕ) (ip : String) (p : ℕ) (s : IpRateLimiter R)
      → IsValid s
      → lookup ip s.ips ≡ some p
      → let (allowed, s') = allow_at R now p s in
        let (expected, l) = allow now (limiter_of ip s) in
        IsValid s'
        × (allowed ≡ expected)
        × (limiter_of ip s' ≡ l)
        × ((j : String) → ip ≢ j → limiter_of j s' ≡ limiter_of j s)
  unfolding limiter_of allow_at
  allow_at_lem now ip p s v known = (
    record {
      inside = λ j q e.
          omega (
            arith,
            v.inside j q e,
            length-set s.heap p (allow now (get_or s.heap p new_limiter)).1,
          );
      apart = v.apart;
    },
    rw (known, limiter_of),
    rw (known, limiter_of)
        (get_or-set_self s.heap p (allow now (get_or s.heap p new_limiter)).1 new_limiter
          (v.inside ip p known)),
    λ j ne. elim (Option-cases (lookup j s.ips)) [
      | inl unknown ↦ rw (unknown, limiter_of)
      | inr (q, known') ↦
          rw (known', limiter_of)
            (get_or-set_ne s.heap p q (allow now (get_or s.heap p new_limiter)).1 new_limiter
              (λ same. ne (v.apart ip j p known (rw same known'))))
    ],
  )

  -- A request is decided by the limiter of its address, and changes no other: the map of pointers
  -- behaves as one limiter for each address.
  pub admit-limiter_of :
      (now : ℕ) (ip : String) (s : IpRateLimiter R)
      → IsValid s
      → let (allowed, s') = admit R now ip s in
        let (expected, l) = allow now (limiter_of ip s) in
        IsValid s'
        × (allowed ≡ expected)
        × (limiter_of ip s' ≡ l)
        × ((j : String) → ip ≢ j → limiter_of j s' ≡ limiter_of j s)
  unfolding admit
  admit-limiter_of now ip s v =
      let s1 : IpRateLimiter R = (get_limiter R ip s).1 in
      let (valid, allowed, own, others) =
        allow_at_lem now ip (get_limiter R ip s).0 s1 (get_limiter-IsValid ip s v)
          (get_limiter-pointer ip s) in
      let same : limiter_of ip s1 ≡ limiter_of ip s = limiter_of-get_limiter ip ip s in
      (
        valid,
        rw same at allowed,
        rw same at own,
        λ j ne. others j ne ∙ limiter_of-get_limiter ip j s,
      )

  -- The background loop's round gives every address a new limiter.
  pub cleanup_visitors-limiter_of :
      (s : IpRateLimiter R)
      → let s' = cleanup_visitors R s in
        IsValid s' × ((ip : String) → limiter_of ip s' ≡ new_limiter)
  unfolding cleanup_visitors limiter_of lookup
  cleanup_visitors-limiter_of s =
      (record { inside = λ ip p e. cc; apart = λ ip j p e f. cc }, λ ip. refl)
