-- ===== src/Gateway.antt =====
-- crates/yb-gateway: how a turn is served.
pub mod Dispatch
pub mod Timing
pub mod Estimate
pub mod Bodies
pub mod Lines
pub mod Ledger
pub mod Buffered
pub mod Stream
pub mod Translators
pub mod Health
pub mod Turns
pub mod Embeddings
pub mod Media
