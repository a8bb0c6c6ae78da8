-- ===== src/Fleet.antt =====
-- `fleet.py`.
pub mod Launch
pub mod Verdicts
pub mod Runs
pub mod Aggregate
pub mod Codes
pub mod Gate
pub mod Sandboxes
pub mod Tallies
pub mod Audits
pub mod Redaction
pub mod Secrets
pub mod Config
pub mod Described
pub mod Granted
