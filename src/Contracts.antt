-- ===== src/Contracts.antt =====
-- core/crates/contracts: the types that the parts exchange. Times (`DateTime<Utc>`) are numbers of
-- microseconds; `HashMap`s and JSON maps of the modelled fields are lists of pairs.
pub mod TaskNo
pub mod Events
pub mod Session
pub mod Phases
pub mod Protocol
pub mod Evidence
