-- ===== src/Wire.antt =====
-- crates/yb-wire: the parts that all translators share.
pub mod Response
pub mod Aggregate
pub mod Common
pub mod Errors
pub mod Anthropic
pub mod OpenaiChat
pub mod Request
pub mod Embed
pub mod Media
