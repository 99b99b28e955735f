-- ===== src/Elastic.antt =====
-- pkg/search/elastic.go: `InitES`.
use belajar_backend_go_v.Base.{Option, String}
use belajar_backend_go_v.Services.{GoError}
use belajar_backend_go_v.Process.{
  Run, ◌>>◌, call, fatal_if, deferring, give, new_elastic, elastic_info, close_body,
}

-- What the client library answers: the error of making the client, and of its `Info`.
pub record ElasticClient : Type 0 where
  pub client_error : String → Option GoError
  pub info_error : Option GoError

unfoldable pub init_es : ElasticClient → String → Run (Unit {0})
init_es C address = do
  call (new_elastic address)
  fatal_if (C.client_error address)
  call elastic_info
  fatal_if C.info_error
  deferring (call close_body) (give tt)
