-- ===== src/Pie.antt =====
-- src/mcp_contract/pie/: policy inference.
pub mod Infer
pub mod Patterns
pub mod Words
pub mod Net
pub mod Classifier
