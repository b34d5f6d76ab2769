-- ===== src/Wire/Request.antt =====
-- crates/yb-wire/src/ir.rs: a parsed request. An `f32` is its 32 bits, as a number.
use sovereign_gateway.Base.{ℕ, String, Bool, false, Option, none, List, [], ◌∷◌, ◌++◌, unwrap_or}
use sovereign_gateway.Core.Json.{Value, Fields, end}
use sovereign_gateway.Wire.Response.{ContentBlock}

pub data Role : Type 0 where
  system developer user assistant tool : Role

pub record Message : Type 0 where
  pub role : Role
  pub content : List ContentBlock

pub record Tool : Type 0 where
  pub name : String
  pub description : Option String
  pub input_schema : Value
  pub strict : Option Bool
  pub anthropic_cache_control : Option Value

pub data ToolChoice : Type 0 where
  auto forbidden required : ToolChoice
  named : String → ToolChoice

pub record Reasoning : Type 0 where
  pub effort : Option String
  pub budget_tokens : Option ℕ

pub record ChatRequest : Type 0 where
  pub model : String
  pub messages : List Message
  pub system : Option (List ContentBlock)
  pub tools : List Tool
  pub tool_choice : Option ToolChoice
  pub max_tokens : Option ℕ
  pub temperature : Option ℕ
  pub top_p : Option ℕ
  pub stop : List String
  pub stream : Bool
  pub native_input : Option (List Value)
  pub native_request : Option Fields
  pub include_usage : Bool
  pub reasoning : Option Reasoning
  pub metadata : Fields
  pub context_management : Option Value
  pub output_config : Option Value
  pub prompt_cache_key : Option String
  pub prompt_cache_retention : Option String
  pub prompt_cache_options : Option Value

-- `Default`
abbrev pub default_request : ChatRequest
default_request = record {
  model = "";
  messages = [];
  system = none;
  tools = [];
  tool_choice = none;
  max_tokens = none;
  temperature = none;
  top_p = none;
  stop = [];
  stream = false;
  native_input = none;
  native_request = none;
  include_usage = false;
  reasoning = none;
  metadata = end;
  context_management = none;
  output_config = none;
  prompt_cache_key = none;
  prompt_cache_retention = none;
  prompt_cache_options = none;
}

-- The content of the messages that hold a system prompt, in order.
unfoldable pub system_messages : List Message → List ContentBlock
system_messages [] = []
system_messages (m ∷ ms) =
    let rest = system_messages ms in
    elim m.role [
      | system ↦ m.content ++ rest
      | developer ↦ m.content ++ rest
      | user ↦ rest
      | assistant ↦ rest
      | tool ↦ rest
    ]

unfoldable pub effective_system : ChatRequest → List ContentBlock
unfolding system_messages
effective_system c = unwrap_or c.system [] ++ system_messages c.messages
