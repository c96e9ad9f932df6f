-- ===== src/Parser.antt =====
-- The parsers of Bitcoin Core's files and messages.
pub mod BlockIndex
pub mod Rpc
pub mod Zmq
pub mod Bitcoin
pub mod Address
