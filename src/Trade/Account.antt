-- ===== src/Trade/Account.antt =====
-- The account, transfer, deployment and conversion actions of package trade: what each signs and posts.
pub mod Toolkit
pub mod Transfers
pub mod SubAccounts
pub mod Settings
pub mod Validators
pub mod Deploy
pub mod Outcomes
pub mod Convert
pub mod Proofs
