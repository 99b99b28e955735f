-- ===== src/Middleware/Once.antt =====
-- The middlewares answer once themselves, or leave the answer to the handler behind them.
use belajar_backend_go_v.Base.{
  ◌∙◌, String, ℤ, ℕ, suc, ap, arith, inl, inr, Bool-cases, Option-cases,
}
use belajar_backend_go_v.Net.{split_host}
use belajar_backend_go_v.Http.{
  Request, ResponseWriter, Handler, Outcome, Outcome-cases, done, panic,
}
use belajar_backend_go_v.Http.Once.{
  Writes, AnswersOnce, http_error-Once, response_error-Once, wrapper-Writes,
}
use belajar_backend_go_v.Utils.Jwt.{Jwt, IsJwt}
use belajar_backend_go_v.Middleware.Auth.{claims_context, auth_middleware, admin_middleware}
use belajar_backend_go_v.Middleware.Auth.Access.{auth_middleware-cases}
use belajar_backend_go_v.Middleware.Logger.{
  Wrapper, wrapper_writer, new_wrapper, Logged, logger_middleware,
}
use belajar_backend_go_v.Middleware.RateLimit.{
  Limiters, IpRateLimiter, Limited, admit, limit, beside,
}

module _ {W St : Type 0} ⦃writer : ResponseWriter W⦄ (B : Writes writer) where
  -- Whatever the request, the handler answers once.
  abbrev pub HandlesOnce : Handler W St → Type 0
  HandlesOnce h = (r : Request) (w : W) (st : St) → AnswersOnce B w (h r w st)

  pub admin_middleware-HandlesOnce :
      (h : Handler W St) → HandlesOnce h → HandlesOnce (admin_middleware h)
  unfolding admin_middleware
  admin_middleware-HandlesOnce h once r w st = grind (arith, once, http_error-Once)

  pub auth_middleware-HandlesOnce :
      (J : Jwt)
      → IsJwt J
      → (env : String) (now : ℤ) (h : Handler W St) → HandlesOnce h
      → HandlesOnce (auth_middleware J env now h)
  auth_middleware-HandlesOnce J L env now h once r w st =
      elim (auth_middleware-cases J L env now h r w st) [
        | inl (c, _, _, _, _, reached) ↦
            rw reached (once (record r { context = claims_context c }) w st)
        | inr (message, stopped) ↦ rw stopped (http_error-Once B message 401 w)
      ]

  pub logger_middleware-HandlesOnce :
      (request_id : String) (h : Handler (Wrapper W) St)
      → ((r : Request) (w : Wrapper W) (st : St) → AnswersOnce (wrapper-Writes B) w (h r w st))
      → (r : Request) (w : W) (st : Logged St)
      → AnswersOnce B w (logger_middleware request_id h r w st)
  unfolding logger_middleware new_wrapper wrapper-Writes
  logger_middleware-HandlesOnce request_id h once r w st =
      let v = new_wrapper (writer.set_header "X-Request-ID" request_id w) in
      let answered = once r v st.state in
      elim (Outcome-cases (h r v st.state)) [
        | inl (v', st', e) ↦
            let (one, sent) : AnswersOnce (wrapper-Writes B) v (done v' st') = rw e at answered in
            rw (e, logger_middleware)
              (one ∙ ap suc (B.bodies-set_header "X-Request-ID" request_id w), sent)
        | inr (st', e) ↦
            absurd (let no : AnswersOnce (wrapper-Writes B) v (panic st') = rw e at answered in no)
      ]

  beside-AnswersOnce :
      (M : Limiters) (l : IpRateLimiter M) (w : W) (o : Outcome W St)
      → AnswersOnce B w o
      → AnswersOnce B w (beside M l o)
  beside-AnswersOnce M l w (done w' st) once = once
  beside-AnswersOnce M l w (panic st) once = once

  pub limit-HandlesOnce :
      (M : Limiters) (now : ℕ) (h : Handler W St)
      → (r : Request) (w : W) (st : Limited M St) → AnswersOnce B w (h r w st.state)
      → AnswersOnce B w (limit M now h r w st)
  unfolding limit
  limit-HandlesOnce M now h r w st once = elim (Option-cases (split_host r.remote_addr)) [
    | inl unreadable ↦
        rw (unreadable, limit) (beside-AnswersOnce M st.limiter w (h r w st.state) once)
    | inr (ip, known) ↦ elim (Bool-cases (admit M now ip st.limiter).0) [
      | inl allowed ↦
          rw (known, allowed, limit)
            (beside-AnswersOnce M (admit M now ip st.limiter).1 w (h r w st.state) once)
      | inr refused ↦
          rw (known, refused, limit)
            (response_error-Once B 429 "Terlalu banyak request, santai dulu kawan" w)
    ]
  ]
