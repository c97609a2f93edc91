-- ===== src/Worker.antt =====
-- core/crates/worker: what the worker does with a task: its context, its rounds with the model, its
-- tools, its card and its end.
pub mod Scan
pub mod Texts
pub mod Fingerprint
pub mod Redact
pub mod Final
pub mod Mime
pub mod Retry
pub mod Context
pub mod Desk
pub mod Card
pub mod Checklist
pub mod Tools
pub mod Finish
pub mod Messages
pub mod Loop
pub mod Frame
pub mod Leads
pub mod Ending
pub mod Rounds
pub mod Ended
pub mod Pairing
pub mod Trimming
pub mod Retrying
pub mod Masked
pub mod Transcript
pub mod Spares
pub mod Closing
pub mod Closed
pub mod OneCard
