-- ===== src/Info/Proofs.antt =====
-- The proofs about package info: labels of questions, and the registration of outcomes.
pub mod Names
pub mod Decimals
pub mod Classes
pub mod Labels
pub mod Questions
pub mod Panics
pub mod Canonical
pub mod Registered
pub mod Descriptions
