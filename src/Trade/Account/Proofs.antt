-- ===== src/Trade/Account/Proofs.antt =====
-- The proofs about account actions: the vault they go under, the shares, and the conversions.
pub mod Calls
pub mod Vaults
pub mod NullVault
pub mod Shares
pub mod Pairs
pub mod Conversions
pub mod Ids
