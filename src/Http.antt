-- ===== src/Http.antt =====
-- What the program uses of Go's `net/http`: a request, the interface of a response writer, the
-- server's own writer, and handlers, which take the state behind them and return the new one.
pub mod Once
use package.text.Mathlib.Text.{◌==◌ as str_eq}
use belajar_backend_go_v.Base.{
  ℕ, ◌≡◌, refl, ◌⊎◌, inl, inr, Option, none, some, List, [], ◌∷◌, ◌++◌, String, ℤ, if◌then◌else◌,
}
use belajar_backend_go_v.Json.{Document, Json}

-- The values that the program keeps in a request's context.
pub record Context : Type 0 where
  pub role : Option String
  pub user_id : Option ℤ
  pub email : Option String

abbrev pub empty_context : Context
empty_context = record { role = none; user_id = none; email = none }

-- `path` is the list of segments between the slashes. `query` and `authorization` are what `Get`
-- returns: the empty text for what is missing.
pub record Request : Type 0 where
  pub method : String
  pub path : List String
  pub path_id : String
  pub query : String → String
  pub authorization : String
  pub remote_addr : String
  pub body : Document
  pub context : Context

pub data Content : Type 0 where
  json_content : Json → Content
  plain : String → Content

-- `http.ResponseWriter`
pub record ResponseWriter (W : Type 0) : Type 0 where
  pub set_header : String → String → W → W
  pub write_header : ℕ → W → W
  pub write : Content → W → W

-- The writer of the server: the headers set so far, and once the status is sent, the status and
-- the headers that went with it. What comes later changes neither.
pub record Response : Type 0 where
  pub header : List (String × String)
  pub sent : Option (ℕ × List (String × String))
  pub content : List Content

abbrev pub fresh_response : Response
fresh_response = record { header = []; sent = none; content = [] }

unfoldable pub set_pair : String → String → List (String × String) → List (String × String)
set_pair k v [] = (k, v) ∷ []
set_pair k v ((j, x) ∷ h) = if str_eq j k then (k, v) ∷ h else (j, x) ∷ set_pair k v h

unfoldable pub send_status : ℕ → Response → Response
send_status code r = elim r.sent [ some _ ↦ r | none ↦ record r { sent = some (code, r.header) } ]

-- A write with no status sent sends 200.
unfoldable pub send_content : Content → Response → Response
unfolding send_status
send_content c r = let r' = send_status 200 r in record r' { content = r'.content ++ c ∷ [] }

instance abbrev pub http_writer : ResponseWriter Response
http_writer = record {
  set_header = λ k v r. record r { header = set_pair k v r.header };
  write_header = send_status;
  write = send_content;
}

-- A handler ends, or it panics, and then the server drops the connection.
pub data Outcome (W St : Type 0) : Type 0 where
  done : W → St → Outcome W St
  panic : St → Outcome W St

pub Outcome-cases :
    {W St : Type 0} (o : Outcome W St)
    → ((w : W) × (st : St) × (o ≡ done w st)) ⊎ ((st : St) × (o ≡ panic st))
Outcome-cases (done w st) = inl (w, st, refl)
Outcome-cases (panic st) = inr (st, refl)

abbrev pub Handler : Type 0 → Type 0 → Type 0
Handler W St = Request → W → St → Outcome W St

-- `http.Error`
unfoldable pub http_error : {W : Type 0} ⦃rw : ResponseWriter W⦄ → String → ℕ → W → W
http_error ⦃rw⦄ message code w = rw.write (plain message) (
    rw.write_header code (
      rw.set_header "X-Content-Type-Options" "nosniff"
        (rw.set_header "Content-Type" "text/plain; charset=utf-8" w)))
