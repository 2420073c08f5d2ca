-- ===== src/Info/Responses.antt =====
-- The answers to the queries of package info, as the structs that they are decoded into. A pointer is
-- an option, and a float64 is of the type `A`.
pub mod Account
pub mod Orders
pub mod Market
pub mod Meta
pub mod Staking
