-- ===== src/Auth.antt =====
-- Authentication and authorization.
pub mod Claims
pub mod Acl
pub mod Jwt
