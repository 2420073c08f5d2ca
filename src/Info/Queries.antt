-- ===== src/Info/Queries.antt =====
-- The queries of package info, file by file.
pub mod Json
pub mod Account
pub mod Orders
pub mod Market
pub mod Metadata
pub mod Staking
