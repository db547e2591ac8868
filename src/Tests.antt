-- ===== src/Tests.antt =====
-- Concrete runs of the model, and each result at a concrete input.
mod Outside
mod Runs
mod Witnesses
mod Streams
mod Services
mod Network
mod Updates
