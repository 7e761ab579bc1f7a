-- ===== src/Tests.antt =====
-- Runs of the model on concrete inputs.
pub mod Channel
pub mod Transport
pub mod Session
pub mod Errors
pub mod Reply
pub mod Params
pub mod Chains
pub mod Client
pub mod Calls
pub mod Wallet
pub mod Socket
