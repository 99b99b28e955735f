-- ===== src/Tests.antt =====
-- Runs of the model, and the theorems at concrete inputs.
pub mod Concurrent
pub mod Accounts
pub mod Queue
mod Fixtures
mod Checkout
mod Writes
mod Shop
mod Access
mod Worker
mod Basics
mod Login
mod Server
mod Race
