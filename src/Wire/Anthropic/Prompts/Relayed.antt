-- ===== src/Wire/Anthropic/Prompts/Relayed.antt =====
-- crates/yb-wire/src/anthropic.rs: a request that is written for an Anthropic upstream and read there.
