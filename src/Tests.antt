-- ===== src/Tests.antt =====
-- Runs of the model and of the theorems on concrete data.
mod Data
mod OfStore
mod OfEvidence
mod OfControl
mod OfWorker
mod OfRegex
mod OfGateway
