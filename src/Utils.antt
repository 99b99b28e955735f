-- ===== src/Utils.antt =====
-- utils/
pub mod Response
pub mod Password
pub mod Jwt
