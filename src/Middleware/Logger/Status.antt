-- ===== src/Middleware/Logger/Status.antt =====
-- The status that `Logger` writes down against the one that the client is sent.
use mathlib.Core.Path.{subst}
use belajar_backend_go_v.Base.{
  ◌≡◌, refl, sym, ap, ◌⊎◌, inl, inr, none, some, [], ◌∷◌, ◌++◌, ℕ, String, arith, Option-cases,
}
use belajar_backend_go_v.Http.{
  Request, Response, fresh_response, http_writer, Content, Outcome, done, panic, Handler,
  send_status, send_content,
}
use belajar_backend_go_v.Middleware.Logger.{
  Wrapper, new_wrapper, wrapper_write_header, wrapper_writer, Entry, Logged, logger_middleware,
}

-- The wrapper's status is the one that was sent, or 200 while none was.
abbrev pub IsStatusOf : ℕ → Response → Type 0
IsStatusOf code r = elim r.sent [ some s ↦ code ≡ s.0 | none ↦ code ≡ 200 ]

abbrev pub Agrees : Wrapper Response → Type 0
Agrees w = IsStatusOf w.status_code w.inner

-- Setting a header, writing content, and the first `WriteHeader` keep the two in agreement.
wrapper-Agrees :
    (w : Wrapper Response)
    → Agrees w
    → ((k v : String) → Agrees (wrapper_writer.set_header k v w))
      × ((c : Content) → Agrees (wrapper_writer.write c w))
      × ((code : ℕ) → w.inner.sent ≡ none → Agrees (wrapper_writer.write_header code w))
unfolding wrapper_write_header send_status send_content
wrapper-Agrees w h = elim (Option-cases w.inner.sent) [
  | inl fresh ↦ ground (arith, h)
  | inr ((code, header), gone) ↦ ground (arith, h)
]

-- What a handler leaves is in agreement if it panics or if its writer is.
abbrev pub AgreesOutcome : {St : Type 0} → Outcome (Wrapper Response) St → Type 0
AgreesOutcome (done w st) = Agrees w
AgreesOutcome (panic st) = Unit

Outcome-cases :
    {W St : Type 0} (o : Outcome W St)
    → ((w : W) × (st : St) × (o ≡ done w st)) ⊎ ((st : St) × (o ≡ panic st))
Outcome-cases (done w st) = inl (w, st, refl)
Outcome-cases (panic st) = inr (st, refl)

pub logger_middleware-status :
    {St : Type 0} (request_id : String) (next : Handler (Wrapper Response) St) (r : Request)
    (st : Logged St) (w : Response) (st' : Logged St)
    → ((v : Wrapper Response) → v.inner.sent ≡ none → Agrees v → AgreesOutcome (next r v st.state))
    → logger_middleware request_id next r fresh_response st ≡ done w st'
    → (e : Entry) × (st'.entries ≡ st.entries ++ e ∷ [])
      × (e.request_id ≡ request_id)
      × IsStatusOf e.status w
unfolding logger_middleware new_wrapper
logger_middleware-status request_id next r st w st' keeps ended =
    let inner : Response = http_writer.set_header "X-Request-ID" request_id fresh_response in
    let v : Wrapper Response = new_wrapper inner in
    elim (Outcome-cases (next r v st.state)) [
      | inr (after, stopped) ↦
          let panicked : logger_middleware request_id next r fresh_response st
              ≡ panic (record st { state = after }) =
            rw (stopped, logger_middleware) refl in
          absurd (ground (arith, panicked, ended))
      | inl (wrapped, after, left) ↦
          let entry : Entry = record {
            request_id = request_id;
            method = r.method;
            path = r.path;
            status = wrapped.status_code;
            ip = r.remote_addr;
          } in
          let logged : logger_middleware request_id next r fresh_response st
              ≡ done wrapped.inner (record { state = after; entries = st.entries ++ entry ∷ [] }) =
            rw (left, logger_middleware) refl in
          let agrees : Agrees wrapped = subst AgreesOutcome left (keeps v refl refl) in
          let writer : w ≡ wrapped.inner = ground (arith, logged, ended) in
          let state : st' ≡ record { state = after; entries = st.entries ++ entry ∷ [] } =
            ground (arith, logged, ended) in
          (
            entry,
            ap (λ s. s.entries) state,
            refl,
            subst (IsStatusOf wrapped.status_code) (sym writer) agrees,
          )
    ]
