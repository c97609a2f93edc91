-- ===== src/Evals/Regex.antt =====
-- core/crates/evals/src/regex_mini.rs.
pub mod Syntax
pub mod Engine
pub mod Meaning
pub mod Members
pub mod Sound
pub mod Complete
pub mod Search
pub mod Reading
pub mod Parser
pub mod Reads
pub mod Compiling
