-- ===== src/Wire/Anthropic/Answers/RoundTrip.antt =====
-- crates/yb-wire/src/anthropic.rs: an answer that is written for a client is read back as it was.
use sovereign_gateway.Base.{
  ℕ, ◌%◌, ◌^◌, ◌<◌, String, ◌≡◌, ◌≢◌, refl, ap, Option, none, some, List, [], ◌∷◌, eq_iff, arith,
}
use sovereign_gateway.Base.Text.{show}
use sovereign_gateway.Core.Json.{Value, number}
use sovereign_gateway.Wire.Anthropic.Answers.{
  of_list, to_list, emit_usage, response_value, content_of, read_response, parse_response,
  emit_response,
}
use sovereign_gateway.Wire.Anthropic.Blocks.{parse_content}
use sovereign_gateway.Wire.Anthropic.Blocks.RoundTrip.{AreWritable, parse_items-emit_blocks}
use sovereign_gateway.Wire.Anthropic.Decode.{parse_usage, parse_stop_reason, stop_reason_str}
use sovereign_gateway.Wire.Common.{get, opt_str, opt_u32, find_field, as_str, as_u64}
use sovereign_gateway.Wire.Common.Numbers.{as_u64-show}
use sovereign_gateway.Wire.Errors.{WireResult, accepted}
use sovereign_gateway.Wire.Response.{
  ContentBlock, ChatResponse, Usage, no_usage, StopReason, end_turn, max_tokens, stop_sequence,
  tool_use, other,
}

-- A reason that is not one of the four is spelled like none of them.
abbrev pub IsOwn : StopReason → Type 0
IsOwn end_turn = Unit
IsOwn max_tokens = Unit
IsOwn stop_sequence = Unit
IsOwn tool_use = Unit
IsOwn (other s) = (s ≢ "end_turn") × (s ≢ "max_tokens") × (s ≢ "stop_sequence") × (s ≢ "tool_use")

-- The counts are `u32`.
abbrev pub IsCounted : Usage → Type 0
IsCounted u =
    (u.input_tokens < 2 ^ 32)
    × (u.output_tokens < 2 ^ 32)
    × (u.cache_read_tokens < 2 ^ 32)
    × (u.cache_write_tokens < 2 ^ 32)

-- What the format has a place for.
abbrev pub carried : ChatResponse → ChatResponse
carried r = record r {
  usage = record no_usage {
    input_tokens = r.usage.input_tokens;
    output_tokens = r.usage.output_tokens;
    cache_read_tokens = r.usage.cache_read_tokens;
    cache_write_tokens = r.usage.cache_write_tokens;
  };
  prompt_cache_key = none;
  prompt_cache_retention = none;
}

parse_stop_reason-stop_reason_str :
    (s : StopReason) → IsOwn s → parse_stop_reason (some (stop_reason_str s)) ≡ s
unfolding parse_stop_reason stop_reason_str
parse_stop_reason-stop_reason_str end_turn h = refl
parse_stop_reason-stop_reason_str max_tokens h = refl
parse_stop_reason-stop_reason_str stop_sequence h = refl
parse_stop_reason-stop_reason_str tool_use h = refl
parse_stop_reason-stop_reason_str (other s) (a, b, c, d) = ground (
  arith,
  a,
  b,
  c,
  d,
  eq_iff s "end_turn",
  eq_iff s "max_tokens",
  eq_iff s "stop_sequence",
  eq_iff s "tool_use",
)

-- The number of a key's value, as it is read.
abbrev pub count_of : Value → Option ℕ
count_of v = elim (as_u64 v) [ none ↦ none | some n ↦ some (n % 2 ^ 32) ]

pub count_of-show : (n : ℕ) → n < 2 ^ 32 → count_of (number (show n)) ≡ some n
count_of-show n h = rw (count_of, as_u64-show n h) (ap (λ k. some k) (omega (arith, h)))

parse_usage-emit_usage :
    (r : ChatResponse)
    → IsCounted r.usage
    → parse_usage (some (emit_usage r.usage)) ≡ (carried r).usage
unfolding parse_usage emit_usage opt_u32 get find_field
parse_usage-emit_usage r (i, o, cr, cw) =
    rw
      (
        count_of-show r.usage.input_tokens i,
        count_of-show r.usage.output_tokens o,
        count_of-show r.usage.cache_read_tokens cr,
        count_of-show r.usage.cache_write_tokens cw,
      )
      refl

pub to_list-of_list : (bs : List ContentBlock) → to_list (of_list bs) ≡ bs
unfolding to_list of_list
to_list-of_list [] = refl
to_list-of_list (b ∷ bs) = ap (λ cs. b ∷ cs) (to_list-of_list bs)

read_response-response_value :
    (r : ChatResponse)
    → AreWritable (of_list r.content)
    → IsOwn r.stop_reason
    → IsCounted r.usage
    → read_response (response_value r) ≡ accepted (carried r)
unfolding read_response response_value content_of parse_content get opt_str find_field as_str
read_response-response_value r h own counted =
    rw
      (
        parse_items-emit_blocks (of_list r.content) h,
        to_list-of_list r.content,
        parse_stop_reason-stop_reason_str r.stop_reason own,
        parse_usage-emit_usage r counted,
      )
      refl

-- An answer that is written in the Anthropic format is read back as it was, less what the format has no place
-- for (the tokens of reasoning, the times and the key of the cache): where its blocks are ones that the format
-- has forms for, its counts are below 2^32, its stop reason is spelled like none of the four that have names
-- unless it is one of them, and the reader of JSON reads what its writer wrote
-- of the answer.
pub parse_response-emit_response :
    (from_slice : String → WireResult Value) (to_vec : Value → WireResult String) (r : ChatResponse)
    (body : String)
    → (to_vec (response_value r) ≡ accepted body → from_slice body ≡ accepted (response_value r))
    → AreWritable (of_list r.content)
    → IsOwn r.stop_reason
    → IsCounted r.usage
    → emit_response from_slice to_vec r ≡ accepted body
    → parse_response from_slice to_vec body ≡ accepted (carried r)
unfolding parse_response emit_response
parse_response-emit_response from_slice to_vec r body back h own counted e =
    rw (parse_response, back e) (read_response-response_value r h own counted)
