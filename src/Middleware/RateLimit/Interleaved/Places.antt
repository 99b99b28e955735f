-- ===== src/Middleware/RateLimit/Interleaved/Places.antt =====
-- The heap of limiters in middleware/ratelimit.go: which place a key of address and time has.
use package.text.Mathlib.TextEquality.{eq_iff}
use belajar_backend_go_v.Base.{
  ℕ, suc, ◌<◌, ◌≡◌, ◌≢◌, refl, sym, ap, ◌∙◌, ◌⊎◌, inl, inr, Option, none, some, List, String, arith,
  length, get_or, set, length-set, get_or-set_self, get_or-set_ne, Option-cases,
}
use belajar_backend_go_v.Middleware.RateLimit.{Limiters, lookup, allow_at, cleanup_visitors}
use belajar_backend_go_v.Middleware.RateLimit.Interleaved.{put, Serving, Keyed}

pub put-cases :
    {A : Type 0} (ip : String) (g : ℕ) (a : A) (f : String → ℕ → A) (j : String) (h : ℕ)
    → ((put ip g a f j h ≡ a) × (ip ≡ j) × (g ≡ h))
      ⊎ ((put ip g a f j h ≡ f j h) × ((ip ≡ j) → (g ≡ h) → ⊥))
put-cases ip g a f j h = ground (arith, eq_iff ip j)

pub put_self :
    {A : Type 0} (ip : String) (g : ℕ) (a : A) (f : String → ℕ → A) → put ip g a f ip g ≡ a
put_self ip g a f = ground (arith, eq_iff ip ip)

module _ (R : Limiters) where
  open R use {Limiter, new_limiter, allow}

  abbrev pub at_place : Option ℕ → List Limiter → Limiter
  at_place none heap = new_limiter
  at_place (some p) heap = get_or heap p new_limiter

  -- The pointer of a request is the place of its key.
  abbrev pub Points : (String → ℕ → Option ℕ) → Option ℕ → Option (String × ℕ) → Type 0
  Points place none none = Unit
  Points place (some p) (some (ip, g)) = place ip g ≡ some p
  Points place none (some key) = ⊥
  Points place (some p) none = ⊥

  -- Each key has its place of the heap, if it has been asked for, and the limiter stands there.
  pub record Refines (place : String → ℕ → Option ℕ) (s : Serving R) (k : Keyed R) : Type 0 where
    pub current : (ip : String) → lookup ip s.limiter.ips ≡ place ip k.rounds
    pub later : (ip : String) (g : ℕ) → k.rounds < g → place ip g ≡ none
    pub inside : (ip : String) (g p : ℕ) → place ip g ≡ some p → p < length s.limiter.heap
    pub apart :
        (ip j : String) (g h p : ℕ) → place ip g ≡ some p → place j h ≡ some p → (ip ≡ j) × (g ≡ h)
    pub here : (ip : String) (g : ℕ) → k.limiter ip g ≡ at_place (place ip g) s.limiter.heap
    pub held : (id : ℕ) → Points place (s.pointers id) (k.keys id)

  pub round-Refines :
      (place : String → ℕ → Option ℕ) (s : Serving R) (k : Keyed R)
      → Refines place s k
      → Refines place
          (record s { limiter = cleanup_visitors R s.limiter })
          (record k { rounds = suc k.rounds })
  unfolding cleanup_visitors lookup
  round-Refines place s k r = record {
    current = λ ip. sym (r.later ip (suc k.rounds) (omega arith));
    later = λ ip g after. r.later ip g (omega (arith, after));
    inside = r.inside;
    apart = r.apart;
    here = r.here;
    held = r.held;
  }

  at_place-set :
      (place : String → ℕ → Option ℕ) (s : Serving R) (k : Keyed R) (ip : String) (g p : ℕ)
      (l : Limiter)
      → Refines place s k
      → place ip g ≡ some p
      → (j : String) (h : ℕ)
      → put ip g l k.limiter j h ≡ at_place (place j h) (set s.limiter.heap p l)
  at_place-set place s k ip g p l r known j h = elim (put-cases ip g l k.limiter j h) [
    | inl (new, same, at) ↦
        let found : place j h ≡ some p = cc in
        new
        ∙ sym (rw found (get_or-set_self s.limiter.heap p l new_limiter (r.inside ip g p known)))
    | inr (old, other) ↦ elim (Option-cases (place j h)) [
      | inl unknown ↦ old ∙ r.here j h ∙ rw unknown refl
      | inr (q, found) ↦
          let distinct : p ≢ q = λ e.
            let (same, at) = r.apart ip j g h p known (found ∙ ap some (sym e)) in other same at in
          old
          ∙ r.here j h
          ∙ rw found (sym (get_or-set_ne s.limiter.heap p q l new_limiter distinct))
    ]
  ]

  -- `Allow` behind the pointer of a key is `Allow` of the limiter of that key.
  pub decide-Refines :
      (place : String → ℕ → Option ℕ) (s : Serving R) (k : Keyed R) (now : ℕ) (ip : String)
      (g p : ℕ)
      → Refines place s k
      → place ip g ≡ some p
      → let (allowed, limiter) = allow_at R now p s.limiter in
        let (expected, l) = allow now (k.limiter ip g) in
        (allowed ≡ expected)
        × Refines place
            (record s { limiter = limiter })
            (record k { limiter = put ip g l k.limiter })
  unfolding allow_at
  decide-Refines place s k now ip g p r known =
      let same : k.limiter ip g ≡ get_or s.limiter.heap p new_limiter =
        r.here ip g ∙ rw known refl in
      rw same (
        refl,
        record {
          current = r.current;
          later = r.later;
          inside = λ j h q e. omega (
            arith,
            r.inside j h q e,
            length-set s.limiter.heap p (allow now (get_or s.limiter.heap p new_limiter)).1,
          );
          apart = r.apart;
          here =
              at_place-set place s k ip g p (allow now (get_or s.limiter.heap p new_limiter)).1 r
                known;
          held = r.held;
        },
      )

  pub Points-cases :
      (place : String → ℕ → Option ℕ) (pointer : Option ℕ) (key : Option (String × ℕ))
      → Points place pointer key
      → ((pointer ≡ none) × (key ≡ none))
        ⊎ ((p : ℕ) × (ip : String) × (g : ℕ) × (pointer ≡ some p)
            × (key ≡ some (ip, g))
            × (place ip g ≡ some p))
  Points-cases place none none known = inl (refl, refl)
  Points-cases place (some p) (some (ip, g)) known = inr (p, ip, g, refl, refl, known)
  Points-cases place none (some key) known = absurd known
  Points-cases place (some p) none known = absurd known
