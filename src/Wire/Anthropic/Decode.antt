-- ===== src/Wire/Anthropic/Decode.antt =====
-- crates/yb-wire/src/anthropic.rs, `decode_sse`: a line of an Anthropic stream. The reader of JSON is a
-- parameter.
use sovereign_gateway.Base.{
  String, Option, none, some, List, [], ◌∷◌, ◌==◌, if◌then◌else◌, unwrap_or,
}
use sovereign_gateway.Core.Json.{Value, null, bool, number, string, array, object}
use sovereign_gateway.Base.Text.{strip_prefix, trim_end}
use sovereign_gateway.Wire.Response.{
  StopReason, Usage, no_usage, StreamEvent, end_turn, other, message_start, max_tokens,
  tool_use_start, text_delta, usage_delta, stop_sequence, thinking_delta, done, tool_use,
  tool_use_delta,
}
use sovereign_gateway.Wire.Common.{opt_u32, get, opt_str}
use sovereign_gateway.Wire.Aggregate.{Json}

unfoldable pub sse_data : String → Option String
unfolding strip_prefix trim_end
sse_data line = elim (strip_prefix "data:" line) [
  | none ↦ none
  | some rest ↦ some (trim_end (unwrap_or (strip_prefix " " rest) rest))
]

unfoldable pub parse_stop_reason : Option String → StopReason
parse_stop_reason none = end_turn
parse_stop_reason (some s) =
    if s == "end_turn"
    then end_turn
    else if s == "max_tokens"
    then max_tokens
    else if s == "stop_sequence"
    then stop_sequence
    else if s == "tool_use"
    then tool_use
    else other s

unfoldable pub stop_reason_str : StopReason → String
stop_reason_str end_turn = "end_turn"
stop_reason_str max_tokens = "max_tokens"
stop_reason_str stop_sequence = "stop_sequence"
stop_reason_str tool_use = "tool_use"
stop_reason_str (other o) = o

unfoldable pub parse_usage : Option Value → Usage
unfolding opt_u32
parse_usage none = no_usage
parse_usage (some v) = record no_usage {
  input_tokens = unwrap_or (opt_u32 v "input_tokens") 0;
  output_tokens = unwrap_or (opt_u32 v "output_tokens") 0;
  cache_read_tokens = unwrap_or (opt_u32 v "cache_read_input_tokens") 0;
  cache_write_tokens = unwrap_or (opt_u32 v "cache_creation_input_tokens") 0;
}

-- `SseState`: the stop reason that is told before the end.
abbrev pub SseState : Type 0
SseState = Option StopReason

abbrev or_null : Option Value → Value
or_null v = unwrap_or v null

abbrev or_empty : Option String → String
or_empty s = unwrap_or s ""

unfoldable pub start_usage : Option Value → List StreamEvent
unfolding parse_usage
start_usage none = []
start_usage (some null) = []
start_usage (some (bool b)) = usage_delta (parse_usage (some (bool b))) ∷ []
start_usage (some (number n)) = usage_delta (parse_usage (some (number n))) ∷ []
start_usage (some (string s)) = usage_delta (parse_usage (some (string s))) ∷ []
start_usage (some (array items)) = usage_delta (parse_usage (some (array items))) ∷ []
start_usage (some (object fields)) = usage_delta (parse_usage (some (object fields))) ∷ []

unfoldable pub decode_start : Value → List StreamEvent
unfolding get opt_str start_usage
decode_start v =
    let msg = or_null (get v "message") in
    message_start (or_empty (opt_str msg "model")) ∷ start_usage (get msg "usage")

unfoldable pub decode_block : Value → List StreamEvent
unfolding get opt_str
decode_block v =
    let block = or_null (get v "content_block") in
    if or_empty (opt_str block "type") == "tool_use"
    then tool_use_start (or_empty (opt_str block "id")) (or_empty (opt_str block "name")) ∷ []
    else []

unfoldable pub decode_delta : Value → List StreamEvent
unfolding get opt_str
decode_delta v =
    let delta = or_null (get v "delta") in
    let type = or_empty (opt_str delta "type") in
    if type == "text_delta"
    then text_delta (or_empty (opt_str delta "text")) ∷ []
    else if type == "thinking_delta"
    then thinking_delta (or_empty (opt_str delta "thinking")) ∷ []
    else if type == "input_json_delta"
    then tool_use_delta (or_empty (opt_str delta "partial_json")) ∷ []
    else []

unfoldable pub decode_value : Value → SseState → SseState × List StreamEvent
unfolding get opt_str decode_start decode_block decode_delta parse_stop_reason parse_usage
decode_value v state =
    let type = or_empty (opt_str v "type") in
    if type == "message_start"
    then (state, decode_start v)
    else if type == "content_block_start"
    then (state, decode_block v)
    else if type == "content_block_delta"
    then (state, decode_delta v)
    else if type == "message_delta"
    then (
      some (parse_stop_reason (opt_str (or_null (get v "delta")) "stop_reason")),
      elim (get v "usage") [ none ↦ [] | some u ↦ usage_delta (parse_usage (some u)) ∷ [] ],
    )
    else if type == "message_stop"
    then (none, done (unwrap_or state end_turn) ∷ [])
    else (state, [])

unfoldable pub decode_sse : Json → String → SseState → SseState × List StreamEvent
unfolding sse_data decode_value
decode_sse json line state = elim (sse_data line) [
  | none ↦ (state, [])
  | some data_ ↦ elim (json.from_str data_) [ none ↦ (state, []) | some v ↦ decode_value v state ]
]
