-- ===== src/Gateway.antt =====
-- core/crates/gateway/src: the calls of tools.
pub mod Shapes
pub mod Schema
pub mod Settling
pub mod Defaults
pub mod Tokens
pub mod Registry
pub mod Results
pub mod Sandboxes
pub mod Call
pub mod Permitted
pub mod Answers
