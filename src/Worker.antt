-- ===== src/Worker.antt =====
-- The worker: cmd/worker/main.go and internal/worker/processor.go.
pub mod Search
pub mod Consumer
pub mod Processor
pub mod Main
