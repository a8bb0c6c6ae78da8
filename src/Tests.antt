-- ===== src/Tests.antt =====
-- Concrete runs of the model, and the theorems at concrete inputs.
mod Fixtures
mod Monitoring
mod Egress
mod Inference
mod Data
mod Documents
mod Policies
mod Loading
mod Classifying
mod Fleets
mod Exports
mod Containers
