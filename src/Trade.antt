-- ===== src/Trade.antt =====
-- Package trade (trade/*.go): placement, modification and cancellation of orders.
pub mod Spec
pub mod Requests
pub mod Client
pub mod Validate
pub mod Action
pub mod Response
pub mod Place
pub mod Market
pub mod Modify
pub mod Cancel
pub mod Account
pub mod Signed
