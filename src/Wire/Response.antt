-- ===== src/Wire/Response.antt =====
-- crates/yb-wire/src/ir.rs: what an upstream answers, as one response and as stream events. The `u32`
-- counts of tokens are numbers, which `max` keeps below 2^32.
use sovereign_gateway.Base.{
  ℕ, String, ◌≡◌, Bool, ◌&&◌, Option, List, ◌==◌, eq_iff, arith, eqb, if◌then◌else◌,
}
use sovereign_gateway.Core.Json.{Value}
use Prim.Native.Nat.{max}

pub data StopReason : Type 0 where
  end_turn max_tokens stop_sequence tool_use : StopReason
  other : String → StopReason

unfoldable pub stop_str : StopReason → String
stop_str end_turn = "end_turn"
stop_str max_tokens = "max_tokens"
stop_str stop_sequence = "stop_sequence"
stop_str tool_use = "tool_use"
stop_str (other s) = s

unfoldable pub from_canonical : String → StopReason
from_canonical s =
    if s == "end_turn"
    then end_turn
    else if s == "max_tokens"
    then max_tokens
    else if s == "stop_sequence"
    then stop_sequence
    else if s == "tool_use"
    then tool_use
    else other s

pub record Usage : Type 0 where
  pub input_tokens : ℕ
  pub output_tokens : ℕ
  pub cache_read_tokens : ℕ
  pub cache_write_tokens : ℕ
  pub reasoning_tokens : ℕ
  pub prompt_ms : ℕ
  pub generation_ms : ℕ

abbrev pub no_usage : Usage
no_usage = record {
  input_tokens = 0;
  output_tokens = 0;
  cache_read_tokens = 0;
  cache_write_tokens = 0;
  reasoning_tokens = 0;
  prompt_ms = 0;
  generation_ms = 0;
}

unfoldable pub merge_usage : Usage → Usage → Usage
merge_usage u v = record {
  input_tokens = max u.input_tokens v.input_tokens;
  output_tokens = max u.output_tokens v.output_tokens;
  cache_read_tokens = max u.cache_read_tokens v.cache_read_tokens;
  cache_write_tokens = max u.cache_write_tokens v.cache_write_tokens;
  reasoning_tokens = max u.reasoning_tokens v.reasoning_tokens;
  prompt_ms = max u.prompt_ms v.prompt_ms;
  generation_ms = max u.generation_ms v.generation_ms;
}

unfoldable pub is_empty_usage : Usage → Bool
is_empty_usage u =
    eqb u.input_tokens 0
    && eqb u.output_tokens 0
    && eqb u.cache_read_tokens 0
    && eqb u.cache_write_tokens 0
    && eqb u.reasoning_tokens 0

-- A list of blocks inside a block is a data type of its own.
mutual
  pub data ContentBlock : Type 0 where
    text : String → ContentBlock
    cached_text : String → Option String → ContentBlock
    image : Option String → Option String → Option String → ContentBlock
    tool_call : String → String → Value → ContentBlock
    tool_result : String → Blocks → Bool → ContentBlock
    thinking : String → Option String → ContentBlock
    native : String → Value → ContentBlock

  pub data Blocks : Type 0 where
    no_blocks : Blocks
    blocks : ContentBlock → Blocks → Blocks

pub record ChatResponse : Type 0 where
  pub id : String
  pub model : String
  pub content : List ContentBlock
  pub stop_reason : StopReason
  pub usage : Usage
  pub prompt_cache_key : Option String
  pub prompt_cache_retention : Option String

pub data StreamEvent : Type 0 where
  message_start : String → StreamEvent
  text_delta : String → StreamEvent
  thinking_delta : String → StreamEvent
  tool_use_start : String → String → StreamEvent
  tool_use_delta : String → StreamEvent
  usage_delta : Usage → StreamEvent
  done : StopReason → StreamEvent

-- A reason read from its canonical text is written as that text again, whichever text it is.
pub stop_str-from_canonical : (s : String) → stop_str (from_canonical s) ≡ s
unfolding from_canonical stop_str
stop_str-from_canonical s = ground (
  arith,
  eq_iff s "end_turn",
  eq_iff s "max_tokens",
  eq_iff s "stop_sequence",
  eq_iff s "tool_use",
)
