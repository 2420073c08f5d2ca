-- ===== src/Tests.antt =====
-- Concrete instances of the parameters, and runs of the models on them.
mod Floats
mod World
mod Accounts
mod Orders
mod Questions
mod Streams
mod Clients
