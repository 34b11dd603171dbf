-- ===== src/Gateway.antt =====
-- The parts of the Gateway API processor, internal/dag/gatewayapi_processor.go.
pub mod Hosts
pub mod Matches
pub mod Timeouts
