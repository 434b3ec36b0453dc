-- ===== src/Gateway.antt =====
-- server/engine/tool_gateway.py: the calls of registered tools.
pub mod Schema
pub mod Conform
pub mod Call
pub mod Retry
pub mod Open
pub mod Probe
pub mod Tests
