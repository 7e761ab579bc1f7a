-- ===== src/Transport.antt =====
-- src/bitcoin_core_rpc/transport.py: what is checked before an exchange, the bounded read of a
-- body, and `http_request`.
pub mod Checks
pub mod Valid
pub mod Read
pub mod Exchange
pub mod Socket
pub mod Pool
pub mod Session
