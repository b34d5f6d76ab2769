-- ===== src/Gateway/Translators.antt =====
-- crates/yb-gateway/src/wire.rs, `Decoder` and `Encoder`: the reader of an upstream's stream and the writer of
-- a client's, by wire format. The streams of the Anthropic and the OpenAI Chat surfaces are the ones of
-- crates/yb-wire; those of the Responses and the Gemini surfaces (openai_responses.rs, gemini.rs) are parameters, with
-- the reader and the writer of JSON, the rounding of an `f64` of milliseconds and UTF-8.
pub mod Ending
use sovereign_gateway.Base.{ℕ, String, Bool, false, Option, none, List, []}
use sovereign_gateway.Core.Formats.{WireFormat}
use sovereign_gateway.Core.Json.{Value}
use sovereign_gateway.Wire.Aggregate.{Json}
use sovereign_gateway.Wire.Response.{StreamEvent}
use sovereign_gateway.Wire.Anthropic
use sovereign_gateway.Wire.OpenaiChat

-- The states of the two other surfaces and what their operations make of them.
pub record Surfaces : Type 1 where
  pub json : Json
  pub milliseconds : Value → ℕ
  pub as_bytes : String → List ℕ
  pub ResponsesSse : Type 0
  pub responses_sse : ResponsesSse
  pub responses_decode : String → ResponsesSse → ResponsesSse × List StreamEvent
  pub ResponsesEmit : Type 0
  pub responses_emit : ResponsesEmit
  pub responses_encode : List StreamEvent → ResponsesEmit → ResponsesEmit × List ℕ
  pub responses_finish : ResponsesEmit → ResponsesEmit × List ℕ
  pub responses_set_prompt_cache : Option String → Option String → ResponsesEmit → ResponsesEmit
  pub GeminiSse : Type 0
  pub gemini_sse : GeminiSse
  pub gemini_decode : String → GeminiSse → GeminiSse × List StreamEvent
  pub GeminiEmit : Type 0
  pub gemini_emit : GeminiEmit
  pub gemini_encode : List StreamEvent → GeminiEmit → GeminiEmit × List ℕ

pub data Decoder (s : Surfaces) : Type 0 where
  anthropic : Anthropic.SseState → Decoder s
  openai_chat : Bool → Decoder s
  openai_responses : s.ResponsesSse → Decoder s
  gemini : s.GeminiSse → Decoder s

pub data Encoder (s : Surfaces) : Type 0 where
  anthropic : Anthropic.EmitState → Encoder s
  openai_chat : OpenaiChat.EmitState → Encoder s
  openai_responses : s.ResponsesEmit → Encoder s
  gemini : s.GeminiEmit → Encoder s

module _ (s : Surfaces) where
  unfoldable pub new_decoder : WireFormat → Decoder s
  new_decoder WireFormat.anthropic = Decoder.anthropic none
  new_decoder WireFormat.openai_chat = Decoder.openai_chat false
  new_decoder WireFormat.openai_responses = Decoder.openai_responses s.responses_sse
  new_decoder WireFormat.gemini = Decoder.gemini s.gemini_sse

  unfoldable pub decode_line : Decoder s → String → Decoder s × List StreamEvent
  unfolding Anthropic.decode_sse OpenaiChat.decode_sse
  decode_line (Decoder.anthropic state) line =
      let (state1, events) = Anthropic.decode_sse s.json line state in
      (Decoder.anthropic state1, events)
  decode_line (Decoder.openai_chat started) line =
      let (started1, events) = OpenaiChat.decode_sse s.milliseconds s.json line started in
      (Decoder.openai_chat started1, events)
  decode_line (Decoder.openai_responses state) line =
      let (state1, events) = s.responses_decode line state in
      (Decoder.openai_responses state1, events)
  decode_line (Decoder.gemini state) line =
      let (state1, events) = s.gemini_decode line state in (Decoder.gemini state1, events)

  unfoldable pub new_encoder : WireFormat → Encoder s
  new_encoder WireFormat.anthropic = Encoder.anthropic Anthropic.new_emit_state
  new_encoder WireFormat.openai_chat = Encoder.openai_chat OpenaiChat.new_emit_state
  new_encoder WireFormat.openai_responses = Encoder.openai_responses s.responses_emit
  new_encoder WireFormat.gemini = Encoder.gemini s.gemini_emit

  unfoldable pub encode : Encoder s → List StreamEvent → Encoder s × List ℕ
  unfolding Anthropic.encode_sse OpenaiChat.encode_sse
  encode (Encoder.anthropic st) events =
      let (st1, text) = Anthropic.encode_sse s.json events st in
      (Encoder.anthropic st1, s.as_bytes text)
  encode (Encoder.openai_chat st) events =
      let (st1, text) = OpenaiChat.encode_sse s.json events st in
      (Encoder.openai_chat st1, s.as_bytes text)
  encode (Encoder.openai_responses st) events =
      let (st1, bytes) = s.responses_encode events st in (Encoder.openai_responses st1, bytes)
  encode (Encoder.gemini st) events =
      let (st1, bytes) = s.gemini_encode events st in (Encoder.gemini st1, bytes)

  -- Only the OpenAI Chat surface makes the usage a choice of the client.
  unfoldable pub set_include_usage : Bool → Encoder s → Encoder s
  set_include_usage on (Encoder.anthropic st) = Encoder.anthropic st
  set_include_usage on (Encoder.openai_chat st) =
      Encoder.openai_chat (record st { include_usage = on })
  set_include_usage on (Encoder.openai_responses st) = Encoder.openai_responses st
  set_include_usage on (Encoder.gemini st) = Encoder.gemini st

  unfoldable pub finish : Encoder s → Encoder s × List ℕ
  unfolding OpenaiChat.finish OpenaiChat.chunks_text
  finish (Encoder.anthropic st) = (Encoder.anthropic st, [])
  finish (Encoder.openai_chat st) =
      let (st1, chunks) = OpenaiChat.finish st in
      (Encoder.openai_chat st1, s.as_bytes (OpenaiChat.chunks_text s.json chunks))
  finish (Encoder.openai_responses st) =
      let (st1, bytes) = s.responses_finish st in (Encoder.openai_responses st1, bytes)
  finish (Encoder.gemini st) = (Encoder.gemini st, [])

  unfoldable pub set_prompt_cache : Option String → Option String → Encoder s → Encoder s
  set_prompt_cache key retention (Encoder.anthropic st) = Encoder.anthropic st
  set_prompt_cache key retention (Encoder.openai_chat st) = Encoder.openai_chat st
  set_prompt_cache key retention (Encoder.openai_responses st) =
      Encoder.openai_responses (s.responses_set_prompt_cache key retention st)
  set_prompt_cache key retention (Encoder.gemini st) = Encoder.gemini st
