-- ===== src/Client.antt =====
-- main/src/client.rs: what the crawler asks of the Sui RPC client. The types below are those of
-- sui_sdk that the code takes apart, with the fields and variants that it reads.
pub mod Changes
pub mod Objects
pub mod Rotation
