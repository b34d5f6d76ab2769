-- ===== src/Wire/Anthropic/Requests.antt =====
-- crates/yb-wire/src/anthropic.rs, `parse_request` and `emit_request`: a request for messages. The readers and
-- writers of JSON and of an `f32` are parameters.
use Prim.Native.String
use sovereign_gateway.Base.{
  ℕ, String, Bool, Option, none, some, List, [], ◌∷◌, ◌++◌, ◌==◌, if◌then◌else◌, unwrap_or,
}
use sovereign_gateway.Core.Json.{
  Value, null, bool, number, string, array, object, Items, nil, cons, Fields, end, field,
}
use sovereign_gateway.Wire.Anthropic.Answers.{to_list, content_of}
use sovereign_gateway.Wire.Anthropic.Blocks.{opt_bool}
use sovereign_gateway.Wire.Common.{get, opt_str, opt_u32}
use sovereign_gateway.Wire.Errors.{
  WireResult, accepted, rejected, missing_field, invalid_field, invalid_request, and_then, ◌>>=◌,
}
use sovereign_gateway.Wire.Request.{
  user, assistant, Message, Tool, ToolChoice, auto, forbidden, required, named, Reasoning,
  ChatRequest, default_request,
}
use sovereign_gateway.Wire.Response.{ContentBlock}

abbrev join_text : String → String → String
join_text a b = String.◌++◌ a b

pub record EmitOptions : Type 0 where
  pub target_model : String
  pub force_reasoning_effort : Option String
  pub stream : Bool

-- A message of a request, or content of a system turn, which goes to the prompt.
pub data Turn : Type 0 where
  said : Message → Turn
  folded : List ContentBlock → Turn

unfoldable pub read_role : Option String → List ContentBlock → WireResult Turn
read_role none content = rejected (missing_field "messages[].role")
read_role (some role) content =
    if role == "user"
    then accepted (said (record { role = user; content = content }))
    else if role == "assistant"
    then accepted (said (record { role = assistant; content = content }))
    else if role == "system"
    then accepted (folded content)
    else rejected (invalid_field "messages[].role" (join_text "unknown " role))

unfoldable pub read_message : Value → WireResult Turn
unfolding content_of get opt_str to_list read_role
read_message m =
    and_then (λ content. read_role (opt_str m "role") (to_list content))
      (content_of (get m "content"))

abbrev pub Prompted : Type 0
Prompted = Option (List ContentBlock) × List Message

abbrev pub before : Message → WireResult Prompted → WireResult Prompted
before m r = and_then (λ (prompt, messages). accepted (prompt, m ∷ messages)) r

unfoldable pub read_messages : Items → Option (List ContentBlock) → WireResult Prompted
unfolding read_message
read_messages nil prompt = accepted (prompt, [])
read_messages (cons m items) prompt = elim (read_message m) [
  | rejected e ↦ rejected e
  | accepted turn ↦ elim turn [
    | said message ↦ before message (read_messages items prompt)
    | folded content ↦ read_messages items (some (unwrap_or prompt [] ++ content))
  ]
]

unfoldable pub read_tool : Value → WireResult Tool
unfolding get opt_str
read_tool t = elim (opt_str t "name") [
  | none ↦ rejected (missing_field "name")
  | some name ↦ accepted (record {
    name = name;
    description = opt_str t "description";
    input_schema = unwrap_or (get t "input_schema") null;
    strict = none;
    anthropic_cache_control = get t "cache_control";
  })
]

unfoldable pub read_tools : Items → WireResult (List Tool)
unfolding read_tool
read_tools nil = accepted []
read_tools (cons t items) =
    and_then (λ tool. and_then (λ tools. accepted (tool ∷ tools)) (read_tools items)) (read_tool t)

unfoldable pub parse_tool_choice : Value → WireResult ToolChoice
unfolding opt_str
parse_tool_choice v =
    let kind = unwrap_or (opt_str v "type") "" in
    if kind == "auto"
    then accepted auto
    else if kind == "any"
    then accepted required
    else if kind == "none"
    then accepted forbidden
    else if kind == "tool"
    then accepted (named (unwrap_or (opt_str v "name") ""))
    else rejected (invalid_field "tool_choice.type" "unknown")

unfoldable pub emit_tool_choice : ToolChoice → Value
emit_tool_choice auto = object (field "type" (string "auto") end)
emit_tool_choice forbidden = object (field "type" (string "none") end)
emit_tool_choice required = object (field "type" (string "any") end)
emit_tool_choice (named name) =
    object (field "name" (string name) (field "type" (string "tool") end))

abbrev pub items_of : Option Value → Items
items_of v = elim v [ none ↦ nil | some w ↦ elim w [ array items ↦ items | _ ↦ nil ] ]

abbrev pub fields_of : Option Value → Fields
fields_of v = elim v [ none ↦ end | some w ↦ elim w [ object fields ↦ fields | _ ↦ end ] ]

-- `str_vec`
unfoldable pub texts_of : Items → List String
texts_of nil = []
texts_of (cons v items) = let rest = texts_of items in elim v [ string s ↦ s ∷ rest | _ ↦ rest ]

abbrev pub optional {ℓ κ} :
    {A : Type ℓ} {B : Type κ} → (A → WireResult B) → Option A → WireResult (Option B)
optional f none = accepted none
optional f (some a) = and_then (λ b. accepted (some b)) (f a)

unfoldable pub read_reasoning : Value → Option Reasoning
unfolding get opt_str opt_u32
read_reasoning v = elim (get v "thinking") [
  | none ↦ none
  | some th ↦
      if unwrap_or (opt_str th "type") "" == "disabled"
      then none
      else some (record { effort = none; budget_tokens = opt_u32 th "budget_tokens" })
]

abbrev pub listed : Option Value → WireResult (Option (List ContentBlock))
listed v = optional (λ sys. and_then (λ bs. accepted (to_list bs)) (content_of (some sys))) v

module _ (as_f32 : Value → Option ℕ) where
  abbrev pub opt_f32 : Option Value → Option ℕ
  opt_f32 v = elim v [ none ↦ none | some w ↦ as_f32 w ]

  unfoldable pub request_of : Value → Prompted → List Tool → Option ToolChoice → ChatRequest
  unfolding get opt_str opt_bool opt_u32 texts_of read_reasoning
  request_of v (prompt, messages) tools tool_choice = record default_request {
    model = unwrap_or (opt_str v "model") "";
    messages = messages;
    system = prompt;
    tools = tools;
    tool_choice = tool_choice;
    max_tokens = opt_u32 v "max_tokens";
    temperature = opt_f32 (get v "temperature");
    top_p = opt_f32 (get v "top_p");
    stop = texts_of (items_of (get v "stop_sequences"));
    stream = opt_bool v "stream";
    reasoning = read_reasoning v;
    metadata = fields_of (get v "metadata");
    context_management = get v "context_management";
    output_config = get v "output_config";
  }

  unfoldable pub read_object : Value → WireResult ChatRequest
  unfolding get content_of read_messages read_tools parse_tool_choice request_of
  read_object v = do
    prompt ← listed (get v "system")
    prompted ← read_messages (items_of (get v "messages")) prompt
    tools ← read_tools (items_of (get v "tools"))
    tool_choice ← optional parse_tool_choice (get v "tool_choice")
    accepted (request_of v prompted tools tool_choice)

  unfoldable pub read_request : Value → WireResult ChatRequest
  unfolding read_object
  read_request (object fields) = read_object (object fields)
  read_request null = rejected (invalid_request "body is not a JSON object")
  read_request (bool b) = rejected (invalid_request "body is not a JSON object")
  read_request (number n) = rejected (invalid_request "body is not a JSON object")
  read_request (string s) = rejected (invalid_request "body is not a JSON object")
  read_request (array items) = rejected (invalid_request "body is not a JSON object")

  unfoldable pub parse_request : (String → WireResult Value) → String → WireResult ChatRequest
  unfolding read_request
  parse_request from_slice bytes = and_then read_request (from_slice bytes)
