-- ===== src/Signing/Proofs.antt =====
-- The proofs about signing: which parts of an action its hash fixes, and what a lenient hash reads.
pub mod Binding
pub mod Declared
