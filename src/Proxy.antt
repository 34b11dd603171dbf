-- ===== src/Proxy.antt =====
-- The HTTPProxy processor (internal/dag/httpproxy_processor.go).
pub mod Monad
pub mod Source
pub mod Actions
pub mod Cluster
pub mod Filters
pub mod Route
pub mod Routes
pub mod Identical
pub mod Expand
pub mod Traverse
