-- ===== src/Middleware.antt =====
-- middleware/
pub mod Auth
pub mod Logger
pub mod RateLimit
pub mod Once
