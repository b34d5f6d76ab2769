-- ===== src/Examples/Answers.antt =====
-- An answer that is relayed to clients of two formats.
use sovereign_gateway.Wire.OpenaiChat.{Chunk, chunks_text}
use sovereign_gateway.Wire.Anthropic.Relay.{decode_lines, decode_lines-encode_sse}
use sovereign_gateway.Wire.Anthropic.Relay.Lines.{is_line}
use sovereign_gateway.Wire.Anthropic.Relay.Positions.{position, run_frames}
use sovereign_gateway.Wire.Anthropic.Relay.Frames.{is_said}
use sovereign_gateway.Core.Json.{object, field, string, end}
use sovereign_gateway.Base.{
  ℕ, String, refl, true, List, [], ◌∷◌, ◌++◌, unwrap_or, if◌then◌else◌, ◌==◌, select, some, none,
  ◌≡◌,
}
use sovereign_gateway.Wire.OpenaiChat.Ending.{IsEnded}
use sovereign_gateway.Gateway.Translators.{Surfaces, new_encoder, set_include_usage, encode, finish}
use sovereign_gateway.Gateway.Translators.Ending.{finish-IsEnded}
use sovereign_gateway.Core.Formats.{WireFormat}
use Prim.Native.Char.{code}
use sovereign_gateway.Wire.Response.{
  StreamEvent, done, message_start, usage_delta, tool_use, thinking_delta, no_usage, text_delta,
  tool_use_start, tool_use_delta,
}
use sovereign_gateway.Wire.Aggregate.{Json}
use sovereign_gateway.Wire.Common.{opt_str}
use sovereign_gateway.Base.Text.{trim_end, is_whitespace, split, is_line_feed}
use sovereign_gateway.Wire.Anthropic.{
  encode_events, encode_sse, new_emit_state, start_frame, block_frame, delta_frame, empty_block,
  text_block,
}

abbrev answer : List StreamEvent
answer =
    message_start "gpt"
    ∷ thinking_delta "so"
    ∷ text_delta "hello"
    ∷ tool_use_start "t1" "find"
    ∷ tool_use_delta "{}"
    ∷ []

abbrev late : List StreamEvent
late = usage_delta (record no_usage { output_tokens = 3 }) ∷ []

-- JSON that knows the frames of one short answer by their types.
abbrev short_json : Json
short_json = record {
  to_string = λ v. unwrap_or (opt_str v "type") "";
  from_str = λ t.
      if t == "message_start"
      then some (start_frame "").1
      else if t == "content_block_start"
      then some (block_frame 0 (empty_block text_block)).1
      else if t == "content_block_delta"
      then some
          (delta_frame 0
            (object (field "text" (string "hello") (field "type" (string "text_delta") end)))).1
      else none;
}

decode_lines-encode_sse_example :
    let (st, text) = encode_sse short_json (text_delta "hello" ∷ []) new_emit_state in
    (select is_said (decode_lines short_json (split is_line_feed text) none)
      ≡ text_delta "hello" ∷ [])
    × (run_frames
          (encode_events (text_delta "hello" ∷ []) new_emit_state).1
          (position new_emit_state)
        ≡ some (position st))
unfolding encode_events opt_str trim_end select start_frame block_frame delta_frame empty_block
    is_whitespace is_line
decode_lines-encode_sse_example =
    decode_lines-encode_sse short_json (text_delta "hello" ∷ []) new_emit_state none
      ((refl, refl), ((refl, refl), ((refl, refl), tt)))

abbrev codes_of : String → List ℕ
codes_of String.[] = []
codes_of (String.◌∷◌ c t) = code c ∷ codes_of t

abbrev surfaces : Surfaces
surfaces = record {
  json = short_json;
  milliseconds = λ v. 0;
  as_bytes = codes_of;
  ResponsesSse = Unit;
  responses_sse = tt;
  responses_decode = λ line st. (st, []);
  ResponsesEmit = Unit;
  responses_emit = tt;
  responses_encode = λ events st. (st, []);
  responses_finish = λ st. (st, []);
  responses_set_prompt_cache = λ key retention st. st;
  GeminiSse = Unit;
  gemini_sse = tt;
  gemini_decode = λ line st. (st, []);
  GeminiEmit = Unit;
  gemini_emit = tt;
  gemini_encode = λ events st. (st, []);
}

-- For a client that asked for the usage, which comes late.
finish-IsEnded_example :
    let e = set_include_usage surfaces true (new_encoder surfaces WireFormat.openai_chat) in
    let (e1, bytes) = encode surfaces e (answer ++ done tool_use ∷ late) in
    (chunks : List Chunk) × (owed : List Chunk) × IsEnded (chunks ++ owed)
    × (bytes ≡ codes_of (chunks_text short_json chunks))
    × ((finish surfaces e1).1 ≡ codes_of (chunks_text short_json owed))
finish-IsEnded_example =
    finish-IsEnded surfaces true answer tool_use late (tt, (tt, (tt, (tt, (tt, tt))))) (tt, tt)
