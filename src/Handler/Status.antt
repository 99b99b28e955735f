-- ===== src/Handler/Status.antt =====
-- What a client and the next request see of a handler's outcome over net/http's own writer.
use mathlib.Core.Option
use belajar_backend_go_v.Base.{ℕ, Option, none, some, List, [], String}
use belajar_backend_go_v.Http.{Response, Content, Outcome, done, panic}

-- The status that was sent, and the state behind the handler.
abbrev pub status_of : {St : Type 0} → Outcome Response St → Option ℕ
status_of (done w st) = Option.map (λ s. s.0) w.sent
status_of (panic st) = none

abbrev pub state_of : {W St : Type 0} → Outcome W St → St
state_of (done w st) = st
state_of (panic st) = st

-- The headers that were sent with the status.
abbrev pub headers_of : {St : Type 0} → Outcome Response St → List (String × String)
headers_of (done w st) = elim w.sent [ some s ↦ s.1 | none ↦ [] ]
headers_of (panic st) = []

abbrev pub content_of : {St : Type 0} → Outcome Response St → List Content
content_of (done w st) = w.content
content_of (panic st) = []
