-- ===== src/Client.antt =====
-- src/bitcoin_core_rpc/client.py: what a client is built from, and what it asks of a node.
pub mod Url
pub mod ChainCheck
pub mod Encoding
pub mod Credentials
pub mod Call
pub mod Quote
pub mod Wallet
pub mod Channel
pub mod FromChain
pub mod CallRaw
pub mod CallBatch
pub mod Rest
pub mod Slashes
