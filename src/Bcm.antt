-- ===== src/Bcm.antt =====
-- src/mcp_contract/bcm/: behaviour-contract monitoring.
pub mod Diff
pub mod Contract
pub mod Offline
pub mod Monitor
