-- ===== src/Wire/Anthropic/Answers.antt =====
-- crates/yb-wire/src/anthropic.rs: a buffered answer, read and written. The reader and the writer of JSON are
-- parameters.
pub mod RoundTrip
use sovereign_gateway.Base.{String, ℕ, Option, none, some, List, [], ◌∷◌, unwrap_or}
use sovereign_gateway.Base.Text.{show}
use sovereign_gateway.Core.Json.{Value, null, number, string, array, object, end, field}
use sovereign_gateway.Wire.Anthropic.Blocks.{parse_content, emit_blocks}
use sovereign_gateway.Wire.Anthropic.Decode.{parse_usage, parse_stop_reason, stop_reason_str}
use sovereign_gateway.Wire.Common.{get, opt_str}
use sovereign_gateway.Wire.Errors.{WireResult, accepted, and_then}
use sovereign_gateway.Wire.Response.{ContentBlock, Blocks, no_blocks, blocks, ChatResponse, Usage}

-- A vector of blocks, as the model of a nested one has it.
unfoldable pub of_list : List ContentBlock → Blocks
of_list [] = no_blocks
of_list (b ∷ bs) = blocks b (of_list bs)

unfoldable pub to_list : Blocks → List ContentBlock
to_list no_blocks = []
to_list (blocks b bs) = b ∷ to_list bs

unfoldable pub emit_usage : Usage → Value
unfolding show
emit_usage u = object (
    field "cache_creation_input_tokens" (number (show u.cache_write_tokens)) (
      field "cache_read_input_tokens" (number (show u.cache_read_tokens)) (
        field "input_tokens" (number (show u.input_tokens))
          (field "output_tokens" (number (show u.output_tokens)) end))))

unfoldable pub response_value : ChatResponse → Value
unfolding of_list emit_blocks stop_reason_str emit_usage
response_value r = object (
    field "content" (array (emit_blocks (of_list r.content))) (
      field "id" (string r.id) (
        field "model" (string r.model) (
          field "role" (string "assistant") (
            field "stop_reason" (string (stop_reason_str r.stop_reason)) (
              field "stop_sequence" null
                (field "type" (string "message") (field "usage" (emit_usage r.usage) end))))))))

unfoldable pub content_of : Option Value → WireResult Blocks
unfolding parse_content
content_of none = accepted no_blocks
content_of (some v) = parse_content v

unfoldable pub read_response : Value → WireResult ChatResponse
unfolding content_of get opt_str to_list parse_stop_reason parse_usage
read_response v =
    and_then
      (λ content. accepted (record {
        id = unwrap_or (opt_str v "id") "";
        model = unwrap_or (opt_str v "model") "";
        content = to_list content;
        stop_reason = parse_stop_reason (opt_str v "stop_reason");
        usage = parse_usage (get v "usage");
        prompt_cache_key = none;
        prompt_cache_retention = none;
      }))
      (content_of (get v "content"))

module _ (from_slice : String → WireResult Value) (to_vec : Value → WireResult String) where
  unfoldable pub parse_response : String → WireResult ChatResponse
  unfolding read_response
  parse_response body = and_then read_response (from_slice body)

  unfoldable pub emit_response : ChatResponse → WireResult String
  unfolding response_value
  emit_response r = to_vec (response_value r)
