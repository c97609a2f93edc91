-- ===== src/Control.antt =====
-- core/crates/control: the control plane.
pub mod Queue
pub mod Plane
pub mod Words
pub mod Sessions
pub mod Card
pub mod Dispatch
pub mod Commands
pub mod Routing
pub mod Steering
pub mod Guards
pub mod Races
pub mod Duplicates
pub mod Cancelling
pub mod Settled
pub mod Writing
pub mod Parallel
pub mod Flights
pub mod Stopping
