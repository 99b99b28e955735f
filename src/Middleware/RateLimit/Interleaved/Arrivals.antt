-- ===== src/Middleware/RateLimit/Interleaved/Arrivals.antt =====
-- `getLimiter` of middleware/ratelimit.go keeps the keys and the places in agreement.

use belajar_backend_go_v.Base.{
  ℕ, ◌<◌, ◌≡◌, refl, sym, ◌∙◌, ◌⊎◌, inl, inr, Option, none, some, List, [], ◌∷◌, ◌++◌, String,
  arith, ◌==◌, length, length-append, get_or-append_default, get_or-length, Bool-cases,
}
use belajar_backend_go_v.Middleware.RateLimit.{Limiters, lookup}
use belajar_backend_go_v.Middleware.RateLimit.Isolation.{lookup-cons_self, lookup-cons_ne}
use belajar_backend_go_v.Middleware.RateLimit.Interleaved.{hold, put, Serving, Keyed}
use belajar_backend_go_v.Middleware.RateLimit.Interleaved.Places.{
  put-cases, put_self, at_place, Points, Refines,
}

module _ (R : Limiters) where
  open R use {Limiter, new_limiter, allow}

  Points-hold :
      (place : String → ℕ → Option ℕ) (pointers : ℕ → Option ℕ) (keys : ℕ → Option (String × ℕ))
      (id p : ℕ) (ip : String) (g : ℕ)
      → place ip g ≡ some p
      → ((j : ℕ) → Points R place (pointers j) (keys j))
      → (j : ℕ) → Points R place (hold id p pointers j) (hold id (ip, g) keys j)
  Points-hold place pointers keys id p ip g known held j = elim (Bool-cases (j == id)) [
    | inl same ↦ rw same known
    | inr other ↦ rw other (held j)
  ]

  Points-more :
      (place place' : String → ℕ → Option ℕ) (p : Option ℕ) (key : Option (String × ℕ))
      → ((ip : String) (g q : ℕ) → place ip g ≡ some q → place' ip g ≡ some q)
      → Points R place p key
      → Points R place' p key
  Points-more place place' none none more known = known
  Points-more place place' (some p) (some (ip, g)) more known = more ip g p known
  Points-more place place' none (some key) more known = known
  Points-more place place' (some p) none more known = known

  pub arrive-Refines_known :
      (place : String → ℕ → Option ℕ) (s : Serving R) (k : Keyed R) (id : ℕ) (ip : String) (p : ℕ)
      → Refines R place s k
      → lookup ip s.limiter.ips ≡ some p
      → Refines R place
          (record s { pointers = hold id p s.pointers })
          (record k { keys = hold id (ip, k.rounds) k.keys })
  arrive-Refines_known place s k id ip p r known = record {
    current = r.current;
    later = r.later;
    inside = r.inside;
    apart = r.apart;
    here = r.here;
    held = Points-hold place s.pointers k.keys id p ip k.rounds (sym (r.current ip) ∙ known) r.held;
  }

  at_place-append :
      (o : Option ℕ) (heap : List Limiter)
      → at_place R o (heap ++ new_limiter ∷ []) ≡ at_place R o heap
  at_place-append none heap = refl
  at_place-append (some p) heap = get_or-append_default heap p new_limiter

  -- A key that had no place gets the next one of the heap.
  module _ (place : String → ℕ → Option ℕ) (s : Serving R) (k : Keyed R) (r : Refines R place s k)
      (ip : String) (unknown : lookup ip s.limiter.ips ≡ none) where
    abbrev n : ℕ
    n = length s.limiter.heap

    abbrev place' : String → ℕ → Option ℕ
    place' = put ip k.rounds (some n) place

    free : place ip k.rounds ≡ none
    free = sym (r.current ip) ∙ unknown

    place-grows : (j : String) (g q : ℕ) → place j g ≡ some q → place' j g ≡ some q
    place-grows j g q known = elim (put-cases ip k.rounds (some n) place j g) [
      | inl (_, same, at) ↦ absurd (cc (free, same, at, known))
      | inr (old, _) ↦ old ∙ known
    ]

    -- A place is the new one, of the new key, or one of the heap as it was.
    place-split :
        (j : String) (g q : ℕ)
        → place' j g ≡ some q
        → ((q ≡ n) × (ip ≡ j) × (k.rounds ≡ g)) ⊎ ((place j g ≡ some q) × (q < n))
    place-split j g q e = elim (put-cases ip k.rounds (some n) place j g) [
      | inl (new, same, at) ↦ inl (cc (new, e), same, at)
      | inr (old, _) ↦ inr (sym old ∙ e, r.inside j g q (sym old ∙ e))
    ]

    place-apart :
        (i j : String) (g h q : ℕ) → place' i g ≡ some q → place' j h ≡ some q → (i ≡ j) × (g ≡ h)
    place-apart i j g h q e e' = elim (place-split i g q e) [
      | inl (last, same, at) ↦ elim (place-split j h q e') [
        | inl (_, same', at') ↦ (sym same ∙ same', sym at ∙ at')
        | inr (_, below) ↦ absurd (omega (arith, last, below))
      ]
      | inr (old, below) ↦ elim (place-split j h q e') [
        | inl (last, _, _) ↦ absurd (omega (arith, last, below))
        | inr (old', _) ↦ r.apart i j g h q old old'
      ]
    ]

    place-here :
        (j : String) (h : ℕ)
        → k.limiter j h ≡ at_place R (place' j h) (s.limiter.heap ++ new_limiter ∷ [])
    place-here j h = elim (put-cases ip k.rounds (some n) place j h) [
      | inl (new, same, at) ↦
          let free' : place j h ≡ none = cc (free, same, at) in
          r.here j h
          ∙ rw (new, free')
              (sym (
                at_place-append (some n) s.limiter.heap ∙ get_or-length s.limiter.heap new_limiter))
      | inr (old, _) ↦ r.here j h ∙ rw old (sym (at_place-append (place j h) s.limiter.heap))
    ]

    pub arrive-Refines_new :
        (id : ℕ)
        → Refines R place'
            (record {
              limiter = record {
                ips = (ip, n) ∷ s.limiter.ips;
                heap = s.limiter.heap ++ new_limiter ∷ [];
              };
              pointers = hold id n s.pointers;
            })
            (record k { keys = hold id (ip, k.rounds) k.keys })
    arrive-Refines_new id = record {
      current = λ j. elim (put-cases ip k.rounds (some n) place j k.rounds) [
        | inl (new, same, _) ↦ rw same (lookup-cons_self j n s.limiter.ips) ∙ sym new
        | inr (old, other) ↦
            lookup-cons_ne ip j n s.limiter.ips (λ e. other e refl) ∙ r.current j ∙ sym old
      ];
      later = λ j h after. elim (put-cases ip k.rounds (some n) place j h) [
        | inl (_, _, at) ↦ absurd (omega (arith, at, after))
        | inr (old, _) ↦ old ∙ r.later j h after
      ];
      inside = λ j h q e. elim (place-split j h q e) [
        | inl (last, _, _) ↦ omega (arith, last, length-append s.limiter.heap (new_limiter ∷ []))
        | inr (_, below) ↦ omega (arith, below, length-append s.limiter.heap (new_limiter ∷ []))
      ];
      apart = place-apart;
      here = place-here;
      held =
          Points-hold place' s.pointers k.keys id n ip k.rounds
            (put_self ip k.rounds (some n) place)
            (λ j. Points-more place place' (s.pointers j) (k.keys j) place-grows (r.held j));
    }
