-- ===== src/Tests/Basics.antt =====
-- The small parts at concrete inputs: numbers as texts, JSON, pages, keys, the circuit, the rate
-- limiter and the log.
use belajar_backend_go_v.Base.{
  ◌≡◌, refl, true, false, none, List, [], ◌∷◌, ℕ, ◌-◌, ◌+◌, pos, negsuc, ◌-ℤ◌, ◌*ℤ◌, ◌≤ℤ◌, max_int,
  ltb, arith,
}
use belajar_backend_go_v.Strconv.{itoa, atoi}
use belajar_backend_go_v.Strconv.Laws.{atoi-itoa}
use belajar_backend_go_v.Models.{ProductFilter, get_offset}
use belajar_backend_go_v.Http.{
  Request, Response, fresh_response, http_writer, empty_context, done, Handler, http_error,
  send_status, send_content,
}
use belajar_backend_go_v.Json.{malformed}
use belajar_backend_go_v.Repository.Product.Paging.{get_offset_lem}
use belajar_backend_go_v.Middleware.Logger.{
  Wrapper, new_wrapper, wrapper_write_header, wrapper_writer, Entry, Logged, logger_middleware,
}
use belajar_backend_go_v.Middleware.Logger.Status.{
  IsStatusOf, Agrees, AgreesOutcome, logger_middleware-status,
}
use belajar_backend_go_v.Middleware.RateLimit.{Limiters}
use belajar_backend_go_v.Middleware.RateLimit.Interleaved
use belajar_backend_go_v.Middleware.RateLimit.Interleaved.{
  arrive, decide, round, idle, answers, all_new, keyed_answers,
}
use belajar_backend_go_v.Middleware.RateLimit.Interleaved.Refinement.{answers-eq-keyed}
use belajar_backend_go_v.Middleware.RateLimit.Runs.{Event, request, cleanup, own_decisions}

atoi-itoa_example : atoi (itoa (negsuc 41)) ≡ (negsuc 41, none)
atoi-itoa_example = atoi-itoa (negsuc 41) (omega arith)

abbrev third_page : ProductFilter
third_page = record { page = pos 3; limit = pos 20; search = "pen" }

abbrev other_page : ProductFilter
other_page = record { page = pos 1; limit = pos 5; search = "ink" }

start_in_range :
    ((get_offset third_page).1.page ≤ℤ max_int)
    × (((get_offset third_page).1.page -ℤ pos 1) *ℤ (get_offset third_page).1.limit ≤ℤ max_int)
unfolding get_offset ◌-ℤ◌ ◌*ℤ◌
start_in_range = (omega arith, omega arith)

get_offset_lem_example :
    let (offset, g) = get_offset third_page in
    (pos 1 ≤ℤ g.page)
    × (pos 1 ≤ℤ g.limit)
    × (g.search ≡ third_page.search)
    × (offset ≡ (g.page -ℤ pos 1) *ℤ g.limit)
    × (pos 0 ≤ℤ offset)
get_offset_lem_example = get_offset_lem third_page start_in_range.0 start_in_range.1

-- A limiter of two requests.
abbrev pub two_tokens : Limiters
two_tokens = record { Limiter = ℕ; new_limiter = 2; allow = λ now left. (ltb 0 left, left - 1) }

abbrev visits : List Event
visits =
    request 0 "a" ∷ request 0 "b" ∷ request 1 "a" ∷ request 1 "a" ∷ cleanup ∷ request 2 "a" ∷ []

own_run : own_decisions two_tokens "a" visits 2 ≡ true ∷ true ∷ false ∷ true ∷ []
unfolding own_decisions
own_run = refl

-- A second request from "a" has its pointer when the cleanup comes, and is decided behind it.
abbrev crossing : List Interleaved.Event
crossing =
    arrive 1 "a"
    ∷ decide 0 1
    ∷ arrive 2 "a"
    ∷ arrive 3 "a"
    ∷ arrive 4 "b"
    ∷ round
    ∷ arrive 5 "a"
    ∷ decide 1 5
    ∷ decide 1 2
    ∷ decide 1 3
    ∷ decide 1 4
    ∷ []

crossing_answers :
    keyed_answers two_tokens crossing (all_new two_tokens)
    ≡ (1, true) ∷ (5, true) ∷ (2, true) ∷ (3, false) ∷ (4, true) ∷ []
unfolding keyed_answers all_new
crossing_answers = refl

answers-eq-keyed_example :
    answers two_tokens crossing (idle two_tokens)
    ≡ keyed_answers two_tokens crossing (all_new two_tokens)
answers-eq-keyed_example = answers-eq-keyed two_tokens crossing

-- A handler that does not find what it is asked for.
abbrev missing : Handler (Wrapper Response) ℕ
missing r w st = done (http_error "missing" 404 w) (st + 1)

abbrev get_request : Request
get_request = record {
  method = "GET";
  path = "products" ∷ [];
  path_id = "";
  query = λ key. "";
  authorization = "";
  remote_addr = "10.0.0.1:4711";
  body = malformed;
  context = empty_context;
}

abbrev no_log : Logged ℕ
no_log = record { state = 4; entries = [] }

missing-Agrees :
    (v : Wrapper Response)
    → v.inner.sent ≡ none
    → Agrees v
    → AgreesOutcome (missing get_request v 4)
unfolding http_error send_status send_content wrapper_write_header
missing-Agrees v fresh h = ground (arith, fresh)

abbrev missing_entry : Entry
missing_entry = record {
  request_id = "r1";
  method = "GET";
  path = "products" ∷ [];
  status = 404;
  ip = "10.0.0.1:4711";
}

abbrev missing_reply : Response
missing_reply = http_error "missing" 404 (http_writer.set_header "X-Request-ID" "r1" fresh_response)

abbrev missing_log : Logged ℕ
missing_log = record { state = 5; entries = missing_entry ∷ [] }

missing_run :
    logger_middleware "r1" missing get_request fresh_response no_log
    ≡ done missing_reply missing_log
unfolding logger_middleware http_error wrapper_write_header new_wrapper
missing_run = refl

logger_middleware-status_example :
    (e : Entry) × (missing_log.entries ≡ e ∷ [])
    × (e.request_id ≡ "r1")
    × IsStatusOf e.status missing_reply
logger_middleware-status_example =
    logger_middleware-status "r1" missing get_request no_log missing_reply missing_log
      missing-Agrees missing_run
