-- ===== src/Wire/OpenaiChat/Decode.antt =====
-- crates/yb-wire/src/openai_chat.rs, `decode_sse`: a line of a chat completion's stream. The reader of
-- JSON and the rounding of an `f64` of milliseconds are parameters.
use sovereign_gateway.Base.{
  ℕ, String, Bool, true, false, ◌||◌, Option, none, some, List, [], ◌∷◌, ◌++◌, ◌==◌, if◌then◌else◌,
  unwrap_or,
}
use sovereign_gateway.Core.Json.{Value, null, bool, number, string, array, object, Items, nil, cons}
use sovereign_gateway.Wire.Aggregate.{Json}
use sovereign_gateway.Wire.Response.{
  StopReason, StreamEvent, Usage, end_turn, tool_use_start, thinking_delta, usage_delta, done,
  message_start, other, max_tokens, tool_use_delta, text_delta, tool_use,
}
use sovereign_gateway.Wire.Common.{get, opt_str, opt_u32}
use sovereign_gateway.Wire.Anthropic.{sse_data}

unfoldable pub finish_to_stop : Option String → StopReason
finish_to_stop none = end_turn
finish_to_stop (some s) =
    if s == "stop"
    then end_turn
    else if s == "length"
    then max_tokens
    else if s == "tool_calls" || s == "function_call"
    then tool_use
    else other s

unfoldable pub detail : Value → String → String → ℕ
unfolding get opt_u32
detail v outer key = elim (get v outer) [ none ↦ 0 | some d ↦ unwrap_or (opt_u32 d key) 0 ]

-- `milliseconds` of a field is a parameter.
unfoldable pub parse_usage : (Value → ℕ) → Value → Option Value → Usage
unfolding get opt_u32 detail
parse_usage milliseconds v timings =
    let time : String → ℕ = λ key. elim timings [
      | none ↦ 0
      | some t ↦ elim (get t key) [ none ↦ 0 | some ms ↦ milliseconds ms ]
    ] in
    record {
      input_tokens = unwrap_or (opt_u32 v "prompt_tokens") 0;
      output_tokens = unwrap_or (opt_u32 v "completion_tokens") 0;
      cache_read_tokens = detail v "prompt_tokens_details" "cached_tokens";
      cache_write_tokens = detail v "prompt_tokens_details" "cache_write_tokens";
      reasoning_tokens = detail v "completion_tokens_details" "reasoning_tokens";
      prompt_ms = time "prompt_ms";
      generation_ms = time "predicted_ms";
    }

-- A text that is there and not empty.
unfoldable pub said_text : Option String → (String → StreamEvent) → List StreamEvent
said_text none event = []
said_text (some t) event = if t == "" then [] else event t ∷ []

unfoldable pub decode_calls : Items → List StreamEvent
unfolding get opt_str said_text
decode_calls nil = []
decode_calls (cons c calls) =
    let f = unwrap_or (get c "function") null in
    said_text (opt_str c "id") (λ id. tool_use_start id (unwrap_or (opt_str f "name") ""))
    ++ said_text (opt_str f "arguments") tool_use_delta
    ++ decode_calls calls

unfoldable pub first_choice : Option Value → Option Value
first_choice none = none
first_choice (some (array nil)) = none
first_choice (some (array (cons v items))) = some v
first_choice (some null) = none
first_choice (some (bool b)) = none
first_choice (some (number n)) = none
first_choice (some (string s)) = none
first_choice (some (object fields)) = none

unfoldable pub calls_of : Option Value → Items
calls_of none = nil
calls_of (some (array items)) = items
calls_of (some null) = nil
calls_of (some (bool b)) = nil
calls_of (some (number n)) = nil
calls_of (some (string s)) = nil
calls_of (some (object fields)) = nil

unfoldable pub decode_choice : Value → List StreamEvent
unfolding get opt_str said_text decode_calls calls_of
decode_choice choice =
    let delta = unwrap_or (get choice "delta") null in
    said_text (opt_str delta "reasoning_content") thinking_delta
    ++ said_text (opt_str delta "content") text_delta
    ++ decode_calls (calls_of (get delta "tool_calls"))

unfoldable pub is_null : Value → Bool
is_null null = true
is_null (bool b) = false
is_null (number n) = false
is_null (string s) = false
is_null (array items) = false
is_null (object fields) = false

unfoldable pub decode_usage : (Value → ℕ) → Value → List StreamEvent
unfolding get is_null parse_usage
decode_usage milliseconds v = elim (get v "usage") [
  | none ↦ []
  | some u ↦
      if is_null u then [] else usage_delta (parse_usage milliseconds u (get v "timings")) ∷ []
]

unfoldable pub decode_end : Value → List StreamEvent
unfolding opt_str finish_to_stop
decode_end choice = elim (opt_str choice "finish_reason") [
  | none ↦ []
  | some r ↦ done (finish_to_stop (some r)) ∷ []
]

-- The state is whether the message has started. The usage comes before the end.
unfoldable pub decode_value : (Value → ℕ) → Value → Bool → Bool × List StreamEvent
unfolding get opt_str first_choice decode_choice decode_usage decode_end
decode_value milliseconds v started =
    let start = if started then [] else message_start (unwrap_or (opt_str v "model") "") ∷ [] in
    elim (first_choice (get v "choices")) [
      | none ↦ (true, start ++ decode_usage milliseconds v)
      | some choice ↦
          (true, start ++ decode_choice choice ++ decode_usage milliseconds v ++ decode_end choice)
    ]

unfoldable pub decode_sse : (Value → ℕ) → Json → String → Bool → Bool × List StreamEvent
unfolding sse_data decode_value
decode_sse milliseconds json line started = elim (sse_data line) [
  | none ↦ (started, [])
  | some data_ ↦ if data_ == "[DONE]" then (started, []) else (elim (json.from_str data_) [
    | none ↦ (started, [])
    | some v ↦ decode_value milliseconds v started
  ])
]
