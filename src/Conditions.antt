-- ===== src/Conditions.antt =====
-- Match conditions of routes (internal/dag/conditions.go).
pub mod Types
pub mod Path
pub mod Header
pub mod Query
