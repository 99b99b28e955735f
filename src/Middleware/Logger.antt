-- ===== src/Middleware/Logger.antt =====
-- middleware/logger_middlewate.go and middleware/response_writer.go. The request id that uuid
-- makes is an argument, and the duration is left out of the entry.
pub mod Status
use belajar_backend_go_v.Base.{ℕ, List, [], ◌∷◌, ◌++◌, String}
use belajar_backend_go_v.Http.{Request, ResponseWriter, Outcome, done, panic, Handler}

-- `responseWriterWrapper`
pub record Wrapper (W : Type 0) : Type 0 where
  pub inner : W
  pub status_code : ℕ

unfoldable pub new_wrapper : {W : Type 0} → W → Wrapper W
new_wrapper w = record { inner = w; status_code = 200 }

unfoldable pub wrapper_write_header :
    {W : Type 0} ⦃rw : ResponseWriter W⦄ → ℕ → Wrapper W → Wrapper W
wrapper_write_header ⦃rw⦄ code w = record {
  inner = rw.write_header code w.inner;
  status_code = code;
}

-- The methods that the wrapper does not define are those of the writer inside.
instance abbrev pub wrapper_writer :
    {W : Type 0} ⦃rw : ResponseWriter W⦄ → ResponseWriter (Wrapper W)
wrapper_writer ⦃rw⦄ = record {
  set_header = λ k v w. record w { inner = rw.set_header k v w.inner };
  write_header = wrapper_write_header;
  write = λ c w. record w { inner = rw.write c w.inner };
}

-- The entry "incoming request".
pub record Entry : Type 0 where
  pub request_id : String
  pub method : String
  pub path : List String
  pub status : ℕ
  pub ip : String

-- The log, beside the state of the handler.
pub record Logged (St : Type 0) : Type 0 where
  pub state : St
  pub entries : List Entry

module _ {W St : Type 0} ⦃rw : ResponseWriter W⦄ where
  -- After a panic of the handler nothing is logged.
  unfoldable pub logger_middleware : String → Handler (Wrapper W) St → Handler W (Logged St)
  unfolding new_wrapper
  logger_middleware request_id next r w st =
      elim (next r (new_wrapper (rw.set_header "X-Request-ID" request_id w)) st.state) [
        | panic st' ↦ panic (record st { state = st' })
        | done wrapped st' ↦ done wrapped.inner (record {
          state = st';
          entries =
              st.entries
              ++ record {
                request_id = request_id;
                method = r.method;
                path = r.path;
                status = wrapped.status_code;
                ip = r.remote_addr;
              }
                ∷ [];
        })
      ]
