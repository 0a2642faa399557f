-- ===== src/Auth.antt =====
-- Module 1, authentication and access control (module1-auth/app).
pub mod Roles
pub mod RateLimit
pub mod Pool
pub mod Tokens
pub mod Login
pub mod Users
pub mod Services
pub mod Steps
mod Tests
