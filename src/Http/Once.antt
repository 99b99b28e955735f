-- ===== src/Http/Once.antt =====
-- How often a handler writes a body. Going on behind the answer to an error writes two, and a
-- branch without an answer writes none.
use belajar_backend_go_v.Base.{
  ℕ, suc, ◌≡◌, ◌∙◌, refl, ap, Option, some, [], ◌∷◌, String, length, length-append, arith, List,
  inl, inr, Option-cases,
}
use belajar_backend_go_v.Json.{Json}
use belajar_backend_go_v.Http.{
  Response, ResponseWriter, http_writer, Content, Outcome, done, panic, http_error, send_content,
  send_status,
}
use belajar_backend_go_v.Utils.Response.{response_json, response_error}
use belajar_backend_go_v.Middleware.Logger.{wrapper_writer, wrapper_write_header}

-- The bodies written so far, and that a status was sent.
pub record Writes {W : Type 0} (rw : ResponseWriter W) : Type 1 where
  pub bodies : W → ℕ
  pub Sent : W → Type 0
  pub bodies-set_header : (k v : String) (w : W) → bodies (rw.set_header k v w) ≡ bodies w
  pub bodies-write_header : (code : ℕ) (w : W) → bodies (rw.write_header code w) ≡ bodies w
  pub bodies-write : (c : Content) (w : W) → bodies (rw.write c w) ≡ suc (bodies w)
  pub write-Sent : (c : Content) (w : W) → Sent (rw.write c w)

module _ {W : Type 0} ⦃rw : ResponseWriter W⦄ (B : Writes rw) where
  -- From `w` one body was written, and the status is sent.
  abbrev pub Once : W → W → Type 0
  Once w w' = (B.bodies w' ≡ suc (B.bodies w)) × B.Sent w'

  abbrev pub AnswersOnce : {St : Type 0} → W → Outcome W St → Type 0
  AnswersOnce w (done w' st) = Once w w'
  AnswersOnce w (panic st) = ⊥

  -- A body behind a status and headers.
  pub write-Once :
      (code : ℕ) (c : Content) (w v : W)
      → B.bodies v ≡ B.bodies w
      → Once w (rw.write c (rw.write_header code v))
  write-Once code c w v same = (
    B.bodies-write c (rw.write_header code v) ∙ ap suc (B.bodies-write_header code v ∙ same),
    B.write-Sent c (rw.write_header code v),
  )

  pub response_json-Once :
      (code : ℕ) (message : String) (payload : Option Json) (w : W)
      → Once w (response_json code message payload w)
  unfolding response_json
  response_json-Once code message payload w = write-Once code _ w _ (B.bodies-set_header _ _ w)

  pub response_error-Once :
      (code : ℕ) (message : String) (w : W) → Once w (response_error code message w)
  unfolding response_error
  response_error-Once code message w = write-Once code _ w _ (B.bodies-set_header _ _ w)

  pub http_error-Once : (message : String) (code : ℕ) (w : W) → Once w (http_error message code w)
  unfolding http_error
  http_error-Once message code w =
      write-Once code _ w _ (B.bodies-set_header _ _ _ ∙ B.bodies-set_header _ _ w)

  -- The wrapper of the logger writes what the writer inside it writes.
  unfoldable pub wrapper-Writes : Writes (wrapper_writer {W = W})
  unfolding wrapper_write_header
  wrapper-Writes = record {
    bodies = λ w. B.bodies w.inner;
    Sent = λ w. B.Sent w.inner;
    bodies-set_header = λ k v w. B.bodies-set_header k v w.inner;
    bodies-write_header = λ code w. B.bodies-write_header code w.inner;
    bodies-write = λ c w. B.bodies-write c w.inner;
    write-Sent = λ c w. B.write-Sent c w.inner;
  }

send_status-content : (code : ℕ) (r : Response) → (send_status code r).content ≡ r.content
unfolding send_status
send_status-content code r = ground arith

abbrev HasStatus : Response → Type 0
HasStatus r = (s : ℕ × List (String × String)) × (r.sent ≡ some s)

send_status-HasStatus : (code : ℕ) (r : Response) → HasStatus (send_status code r)
unfolding send_status
send_status-HasStatus code r = elim (Option-cases r.sent) [
  | inl before ↦ ((code, r.header), rw (before, send_status) refl)
  | inr (s, sent) ↦ (s, rw (sent, send_status) sent)
]

-- The writer of the server.
unfoldable pub http-Writes : Writes http_writer
unfolding send_content send_status-content send_status-HasStatus
http-Writes = record {
  bodies = λ r. length r.content;
  Sent = HasStatus;
  bodies-set_header = λ k v r. refl;
  bodies-write_header = λ code r. ap length (send_status-content code r);
  bodies-write = λ c r. omega (
    arith,
    length-append {0} (send_status 200 r).content (c ∷ []),
    ap (length {0}) (send_status-content 200 r),
  );
  write-Sent = λ c r. send_status-HasStatus 200 r;
}
