-- ===== src/Wire/Aggregate.antt =====
-- crates/yb-wire/src/aggregate.rs: the fold of stream events into one response, and the events of a
-- response. The reader and the writer of JSON are parameters (serde_json).
pub mod RoundTrip
pub mod Reports
use Prim.Native.String
use sovereign_gateway.Base.{
  ℕ, zero, suc, ◌+◌, ◌-◌, ◌*◌, ◌%◌, ◌≤◌, ◌<◌, String, ◌≡◌, ◌≢◌, refl, sym, ap, ◌∙◌, ◌↔◌, ◌⊎◌, inl,
  inr, Bool, true, false, not, ◌&&◌, ◌||◌, Option, none, some, List, [], ◌∷◌, ◌++◌, map, ◌==◌,
  eq_iff, eq_refl, arith, ltb, leb, eqb, if◌then◌else◌, Bool-cases, Option-cases, All, All-append,
  length, is_nil, select, contains, any, unwrap_or, or_else,
}
use sovereign_gateway.Base.Text.{trim}
use sovereign_gateway.Core.Json.{Value, object, end}
use sovereign_gateway.Wire.Response.{
  StopReason, end_turn, tool_use, Usage, no_usage, merge_usage, ContentBlock, text, thinking,
  tool_call, tool_result, image, cached_text, native, ChatResponse, StreamEvent, message_start,
  text_delta, thinking_delta, tool_use_start, tool_use_delta, usage_delta, done,
}

-- Rust's `push_str`.
abbrev pub push_str : String → String → String
push_str s t = String.◌++◌ s t

pub record PartialTool : Type 0 where
  pub id : String
  pub name : String
  pub json : String

pub record Aggregator : Type 0 where
  pub model : String
  pub text : String
  pub thinking : String
  pub tools : List PartialTool
  pub usage : Usage
  pub stop_reason : Option StopReason

abbrev pub new_aggregator : Aggregator
new_aggregator = record {
  model = "";
  text = "";
  thinking = "";
  tools = [];
  usage = no_usage;
  stop_reason = none;
}

-- The arguments go to the last tool call, if there is one.
unfoldable pub extend_last : String → List PartialTool → List PartialTool
extend_last more [] = []
extend_last more (t ∷ []) = record t { json = push_str t.json more } ∷ []
extend_last more (t ∷ u ∷ ts) = t ∷ extend_last more (u ∷ ts)

unfoldable pub push : StreamEvent → Aggregator → Aggregator
unfolding extend_last merge_usage
push (message_start m) a = if a.model == "" then record a { model = m } else a
push (text_delta t) a = record a { text = push_str a.text t }
push (thinking_delta t) a = record a { thinking = push_str a.thinking t }
push (tool_use_start id name) a = record a {
  tools = a.tools ++ record { id = id; name = name; json = "" } ∷ [];
}
push (tool_use_delta partial) a = record a { tools = extend_last partial a.tools }
push (usage_delta u) a = record a { usage = merge_usage a.usage u }
push (done r) a = record a { stop_reason = some r }

unfoldable pub push_all : List StreamEvent → Aggregator → Aggregator
unfolding push
push_all [] a = a
push_all (e ∷ es) a = push_all es (push e a)

-- The reader of JSON, which fails on text that is not JSON, and the writer.
pub record Json : Type 0 where
  pub from_str : String → Option Value
  pub to_string : Value → String

unfoldable pub tool_block : Json → PartialTool → ContentBlock
unfolding trim
tool_block json t =
    tool_call t.id t.name
      (if trim t.json == "" then object end else unwrap_or (json.from_str t.json) (object end))

-- A plain end of turn, or none reported, is a stop for a tool where tools were called.
unfoldable pub final_reason : Bool → Option StopReason → StopReason
final_reason true none = tool_use
final_reason true (some end_turn) = tool_use
final_reason false none = end_turn
final_reason had_tools (some r) = r

unfoldable pub into_response : Json → String → Aggregator → ChatResponse
unfolding tool_block final_reason
into_response json id a = record {
  id = id;
  model = a.model;
  content =
      (if a.thinking == "" then [] else thinking a.thinking none ∷ [])
      ++ (if a.text == "" then [] else text a.text ∷ [])
      ++ map (tool_block json) a.tools;
  stop_reason = final_reason (not (is_nil a.tools)) a.stop_reason;
  usage = a.usage;
  prompt_cache_key = none;
  prompt_cache_retention = none;
}

unfoldable pub block_events : Json → ContentBlock → List StreamEvent
block_events json (thinking t signature) = thinking_delta t ∷ []
block_events json (text t) = text_delta t ∷ []
block_events json (tool_call id name input) =
    tool_use_start id name ∷ tool_use_delta (json.to_string input) ∷ []
block_events json (cached_text t ttl) = []
block_events json (image media data_ url) = []
block_events json (tool_result id content is_error) = []
block_events json (native format raw) = []

unfoldable pub content_events : Json → List ContentBlock → List StreamEvent
unfolding block_events
content_events json [] = []
content_events json (b ∷ bs) = block_events json b ++ content_events json bs

unfoldable pub events_from_response : Json → ChatResponse → List StreamEvent
unfolding content_events
events_from_response json r =
    message_start r.model ∷ content_events json r.content
    ++ usage_delta r.usage ∷ done r.stop_reason ∷ []
