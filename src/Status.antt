-- ===== src/Status.antt =====
-- Conditions of HTTPProxies and the cache of status updates (internal/status).
pub mod Detailed
pub mod Updates
