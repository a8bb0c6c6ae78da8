-- ===== src/Documents.antt =====
-- The documents of a policy: `policy/io.py` and `policy/conformance.py`.
pub mod Conformance
pub mod Emission
pub mod Imports
pub mod Policies
