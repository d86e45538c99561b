-- ===== src/Tests.antt =====
-- Runs of the model on small inputs, and the theorems applied to them.
pub mod Queue
pub mod Service
pub mod Handlers
pub mod Messages
pub mod Services
pub mod Connections
pub mod Agent
pub mod Wiring
pub mod Redirector
