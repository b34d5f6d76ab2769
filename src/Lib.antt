-- ===== src/Lib.antt =====
-- A model of the gateway's core: what a request may use, where it is routed, how it is limited and
-- admitted, and how the candidates of a turn are tried.
--
-- A request to the server (crates/yb-server/src/lib.rs, `run_call`) presents a virtual key. Admission
-- looks the key up, tests its scope, asks the limiter (crates/yb-core/src/ratelimit.rs) and the budgets,
-- and then the gateway (crates/yb-gateway/src/service.rs, `handle`) resolves the model to candidate
-- deployments (crates/yb-gateway/src/router.rs), drops those that the caller's policy does not permit
-- (crates/yb-core/src/model.rs) and calls one after the other until one answers
-- (crates/yb-providers/src/route.rs builds the URL and the headers). A stream that comes back is folded
-- into one response, or a response is expanded into a stream (crates/yb-wire/src/aggregate.rs). What
-- was served is recorded in the telemetry, the spend and the request log, and what a capture keeps is
-- redacted first (crates/yb-redact/src/lib.rs).
--
-- - Base: lists, tests, signed integers, texts and association lists, which the other modules share.
-- - Core: crates/yb-core. Errors (error.rs), Formats and Deployments (routing.rs, catalog.rs), Access,
--   Roles and Scopes (model.rs, rbac.rs), RateLimit (ratelimit.rs), Spend (spend.rs), Json (the values
--   of serde_json). The children of Core.RateLimit follow the slots in flight.
-- - Routing: crates/yb-gateway/src/router.rs. Table is `Snapshot` with `build` and `canonical`, Order is
--   `order` and `next_unit`, Resolve is `collect`, `resolve`, `serving` and `reload`.
-- - Upstream: crates/yb-providers/src/route.rs, function by function, and `models_list_url_for` of
--   crates/yb-gateway/src/health.rs.
-- - Wire: crates/yb-wire/src/ir.rs (requests, responses, usage, events) and aggregate.rs; Embed is
--   embed/mod.rs, Media the request of media.rs; Common is common.rs, Errors is error.rs. Anthropic is anthropic.rs (Requests and Prompts: a request read and
--   written; Answers with Blocks: an answer; Decode and Encode: a stream) and OpenaiChat is the streaming
--   half of openai_chat.rs, with a frame for each `write_event` and a chunk for each `write_chunk`.
-- - Gateway: crates/yb-gateway/src/service.rs. Dispatch is `build_route_request`, `filter_access`,
--   `extra_headers` and the loop of `handle`; Timing is `speed`, `is_output` and
--   `apply_cache_echo`; Estimate is `estimate_tokens`; Bodies is `read_body_message`. Stream is
--   `translate_stream` with its state, one iteration of its loop a step; Lines is the split of its
--   buffer; Buffered is `aggregate_stream`, `full_to_stream` and `emit_full`; Ledger is `RecordCtx`
--   with `finish`; Translators is `Decoder` and `Encoder` of wire.rs. Health is the
--   check of a deployment in crates/yb-gateway/src/health.rs. Turns is what the turns of embeddings
--   (embed.rs, Embeddings) and of media (media.rs, Media) share: the loop and the record; Media.Videos is
--   `handle_video`.
-- - Server: crates/yb-server/src/lib.rs. Admission is the first half of `run_call`; Headers is
--   `bearer_token`, `parse_traceparent` and `to_hex`.
-- - Redact: crates/yb-redact/src/lib.rs. Luhn is `luhn`, Cards is `card`, Values is `redact_value`, Keys
--   is `UniqueKeys`, and Bodies is `redact_json` and `redact_body`.
-- - Reqlog: crates/yb-reqlog/src/lib.rs. Worker is `flush`, `prune` and what seals a shard, Shards is
--   `rotate`, `maybe_rotate` and `forget`, Logger is the loop of the worker with the queue of
--   `DuckLogger` before it. Disk is what they call: DuckDB, files and the clock, and its laws.
-- - Examples: small gateways on which each theorem is used.
--
-- State is passed on and given back: the map behind the limiter's mutex, the counters and the random
-- state of the router, the records that a turn leaves. A hash map is the list of its entries. A `usize`
-- counter and the 64-bit random state wrap around; token counts are numbers that are only compared;
-- an `i64` that the code adds to is an integer. `canonical` follows eight aliases, as the source does; a
-- poll of a stream has one round more than there are reads left, which is enough; every other loop is
-- over a list, so no fuel is needed.
--
-- Parameters: the arithmetic of `f64` and of durations (`Floats`, `Clock`), `f32`, the reader and the
-- writer of JSON, the translators and the HTTP client (`Services`, `EmbedServices` and `MediaServices`
-- for the three kinds of turns), the store and the calendar (`Store`), the environment and the hash of
-- a token, the decoders and the encoders of a stream (`Codec`, and `Surfaces` for the formats that are
-- not modelled), what a check of health calls (`Checks`), the arithmetic of prices (`Arithmetic`), the
-- header map, the database of the request log with its directory (`Disk`, whose laws are hypotheses),
-- the search for phone numbers (`Phone`), and UTF-8. Not modelled: the buffered half of openai_chat.rs,
-- the translators of the Responses, the Gemini and the embedding formats, the multipart forms, the
-- reading of a model listing, the rules of the redactor, the stores, the admin surface, the query of an
-- export, and the exporters of telemetry. A stream is dropped between two iterations, not while its
-- record is being written.
pub mod Base
pub mod Core
pub mod Routing
pub mod Upstream
pub mod Wire
pub mod Gateway
pub mod Server
pub mod Redact
pub mod Reqlog
pub mod Examples
