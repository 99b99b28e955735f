-- ===== src/Repository.antt =====
-- repository/
pub mod Product
pub mod Checkout
pub mod User
pub mod Contract
pub mod Memory
