-- ===== src/Redact.antt =====
-- crates/yb-redact: personal data that is taken out of captured text.
pub mod Luhn
pub mod Cards
pub mod Values
pub mod Keys
pub mod Bodies
