-- ===== src/Middleware/RateLimit/Decision.antt =====
-- What `Limit` of middleware/ratelimit.go does with one request.
use belajar_backend_go_v.Base.{
  ◌≡◌, refl, sym, ◌∙◌, ◌⊎◌, inl, inr, true, false, none, some, ℕ, String, Bool-cases, Option-cases,
}
use belajar_backend_go_v.Net.{split_host}
use belajar_backend_go_v.Http.{Request, ResponseWriter, done, Handler}
use belajar_backend_go_v.Utils.Response.{response_error}
use belajar_backend_go_v.Middleware.RateLimit.{
  Limiters, IpRateLimiter, Limited, admit, beside, limit,
}
use belajar_backend_go_v.Middleware.RateLimit.Isolation.{IsValid, limiter_of, admit-limiter_of}

module _ (M : Limiters) {W St : Type 0} ⦃writer : ResponseWriter W⦄ where
  open M use {allow}

  -- A request from an address goes on to the handler where that address's own limiter allows it,
  -- and is answered with 429 where not, without the handler; either way the limiter's map stays
  -- valid. A request whose address cannot be read goes on, and no limiter sees it.
  pub limit_lem :
      (now : ℕ) (next : Handler W St) (r : Request) (w : W) (st : Limited M St)
      → IsValid M st.limiter
      → let o = limit M now next r w st in
        ((ip : String) × (split_host r.remote_addr ≡ some ip)
          × (l : IpRateLimiter M) × IsValid M l
          × ((((allow now (limiter_of M ip st.limiter)).0 ≡ true)
                × (o ≡ beside M l (next r w st.state)))
              ⊎ (((allow now (limiter_of M ip st.limiter)).0 ≡ false)
                  × (o
                      ≡ done
                          (response_error 429 "Terlalu banyak request, santai dulu kawan" w)
                          (record st { limiter = l })))))
        ⊎ ((split_host r.remote_addr ≡ none) × (o ≡ beside M st.limiter (next r w st.state)))
  unfolding limit
  limit_lem now next r w st v = elim (Option-cases (split_host r.remote_addr)) [
    | inl unreadable ↦ inr (unreadable, rw (unreadable, limit) refl)
    | inr (ip, known) ↦
        let (valid, own, _, _) = admit-limiter_of M now ip st.limiter v in
        inl (
          ip,
          known,
          (admit M now ip st.limiter).1,
          valid,
          elim (Bool-cases (admit M now ip st.limiter).0) [
            | inl allowed ↦ inl (sym own ∙ allowed, rw (known, allowed, limit) refl)
            | inr refused ↦ inr (sym own ∙ refused, rw (known, refused, limit) refl)
          ],
        )
  ]
