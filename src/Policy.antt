-- ===== src/Policy.antt =====
-- Policies of routes and services (internal/dag/policy.go).
pub mod Loops
pub mod Escape
pub mod Headers
pub mod RateLimit
pub mod Cookies
pub mod Balance
pub mod Settings
pub mod Health
pub mod Service
