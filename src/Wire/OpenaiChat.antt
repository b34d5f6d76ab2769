-- ===== src/Wire/OpenaiChat.antt =====
-- crates/yb-wire/src/openai_chat.rs, the streaming half: the chunks of a chat completion, read line by
-- line, and written with the usage and the end that a client waits for. The reader and the writer of
-- JSON and the rounding of an `f64` of milliseconds are parameters.
mod Decode
mod Encode
pub mod Ending
unfoldable pub use Decode.*
unfoldable pub use Encode.*
