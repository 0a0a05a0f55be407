-- ===== src/Handlers.antt =====
-- The package pkg/handlers.
pub mod Policy
pub mod Errors
pub mod Base
pub mod CaCerts
pub mod CsrAttrs
pub mod Enroll
pub mod Reenroll
pub mod KeyGen
pub mod Kept
