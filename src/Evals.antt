-- ===== src/Evals.antt =====
-- core/crates/evals/src: the regular expressions of the assertions.
pub mod Regex
