-- ===== src/Wire/Anthropic.antt =====
-- crates/yb-wire/src/anthropic.rs, the streaming half: the events of an Anthropic stream, read line by
-- line, and written as named frames. The reader and the writer of JSON are parameters.
mod Decode
mod Encode
pub mod Relay
pub mod Blocks
pub mod Answers
pub mod Requests
pub mod Prompts
unfoldable pub use Decode.*
unfoldable pub use Encode.*
