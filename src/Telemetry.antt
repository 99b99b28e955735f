-- ===== src/Telemetry.antt =====
-- pkg/telemetry/init.go: `InitTracer`. The function that it returns, `tp.Shutdown`, is the effect
-- `shutdown_tracer`.
use belajar_backend_go_v.Base.{Option, String}
use belajar_backend_go_v.Services.{GoError}
use belajar_backend_go_v.Process.{
  Run, ◌>>◌, call, fatal_if, new_exporter, new_resource, set_tracer_provider, set_propagator,
}

-- What OpenTelemetry answers: the error of making the exporter for an address, of making the
-- resource of a service, and of shutting down.
pub record Tracing : Type 0 where
  pub exporter_error : String → Option GoError
  pub resource_error : String → Option GoError
  pub shutdown_error : Option GoError

unfoldable pub init_tracer : Tracing → String → String → Run (Unit {0})
init_tracer T service_name collector_addr = do
  call (new_exporter collector_addr)
  fatal_if (T.exporter_error collector_addr)
  call (new_resource service_name)
  fatal_if (T.resource_error service_name)
  call set_tracer_provider
  call set_propagator
