-- ===== src/Samples.antt =====
-- A small concrete environment, and the theorems applied to it.
pub mod Json
pub mod Fixtures
mod Witnesses
mod Admission
mod Queries
mod Kinds
mod Store
mod Passes
mod Watches
mod Starts
