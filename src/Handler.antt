-- ===== src/Handler.antt =====
-- handler/
pub mod Status
pub mod Product
pub mod Checkout
pub mod Auth
pub mod Grpc
pub mod Once
