-- ===== src/Proxy.antt =====
-- src/mcp_contract/proxy/: the egress proxy and its plan.
pub mod Plan
pub mod Server
