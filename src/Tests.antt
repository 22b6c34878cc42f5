-- ===== src/Tests.antt =====
-- Concrete inputs and the theorems at them.
mod Fixtures
mod Gates
mod Verifiers
mod Attestation
mod Integrations
mod Ballots
mod Crossing
mod Worlds
mod Rooms
mod Replies
mod Anchors
mod Seconds
mod Groups
mod Client
mod Texts
mod Platform
mod Commands
mod Failures
mod Bench
mod Demo
