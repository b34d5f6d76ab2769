-- ===== src/Wire/Anthropic/Prompts.antt =====
-- crates/yb-wire/src/anthropic.rs, `emit_request`: a request as the body for an Anthropic upstream. A map is
-- sorted by its keys.
pub mod Lookups
pub mod RoundTrip
pub mod Relay
pub mod Relayed
use sovereign_gateway.Base.{
  ℕ, String, Bool, true, false, Option, none, some, List, [], ◌∷◌, ◌==◌, if◌then◌else◌, unwrap_or,
  or_else, is_nil,
}
use sovereign_gateway.Base.Text.{show}
use sovereign_gateway.Core.Json.{
  Value, bool, number, string, array, object, Items, nil, cons, Fields, end, field,
}
use sovereign_gateway.Redact.Values.{insert_field}
use sovereign_gateway.Wire.Anthropic.Answers.{of_list}
use sovereign_gateway.Wire.Anthropic.Blocks.{emit_blocks, emit_result_content}
use sovereign_gateway.Wire.Anthropic.Requests.{EmitOptions, emit_tool_choice}
use sovereign_gateway.Wire.Errors.{WireResult, accepted, and_then}
use sovereign_gateway.Wire.Request.{
  user, assistant, system, developer, tool, Message, Tool, ToolChoice, ChatRequest,
  effective_system,
}
use sovereign_gateway.Wire.Response.{ContentBlock, text}

-- One text is written as it is.
unfoldable pub message_content : List ContentBlock → Value
unfolding of_list emit_blocks
message_content (text t ∷ []) = string t
message_content [] = array nil
message_content (b ∷ bs) = array (emit_blocks (of_list (b ∷ bs)))

abbrev message_value : String → Message → Value
message_value role m =
    object (field "content" (message_content m.content) (field "role" (string role) end))

unfoldable pub emit_message : Message → Option Value
unfolding message_content
emit_message m = elim m.role [
  | assistant ↦ some (message_value "assistant" m)
  | user ↦ some (message_value "user" m)
  | tool ↦ some (message_value "user" m)
  | system ↦ none
  | developer ↦ none
]

unfoldable pub message_values : List Message → Items
unfolding emit_message
message_values [] = nil
message_values (m ∷ ms) = elim (emit_message m) [
  | none ↦ message_values ms
  | some v ↦ cons v (message_values ms)
]

-- `insert_opt`
unfoldable pub insert_opt : String → Option Value → Fields → Fields
unfolding insert_field
insert_opt key none fields = fields
insert_opt key (some v) fields = insert_field key v fields

abbrev pub string_opt : Option String → Option Value
string_opt s = elim s [ none ↦ none | some t ↦ some (string t) ]

unfoldable pub tool_value : Tool → Value
unfolding insert_opt insert_field
tool_value t = object (
    insert_opt "cache_control" t.anthropic_cache_control (
      insert_field "input_schema" t.input_schema
        (insert_opt "description" (string_opt t.description) (field "name" (string t.name) end))))

unfoldable pub tool_values : List Tool → Items
unfolding tool_value
tool_values [] = nil
tool_values (t ∷ ts) = cons (tool_value t) (tool_values ts)

unfoldable pub stop_values : List String → Items
stop_values [] = nil
stop_values (s ∷ ss) = cons (string s) (stop_values ss)

unfoldable pub effort_to_budget : String → ℕ
effort_to_budget effort = if effort == "low" then 1024 else if effort == "high" then 8192 else 4096

abbrev budget_of_effort : Option String → Option ℕ
budget_of_effort effort = elim effort [ none ↦ none | some e ↦ some (effort_to_budget e) ]

-- A budget that the request names comes before the one of an effort, and an effort that is forced before its own.
unfoldable pub budget_of : ChatRequest → EmitOptions → Option ℕ
unfolding effort_to_budget
budget_of req opts = elim req.reasoning [
  | none ↦ budget_of_effort opts.force_reasoning_effort
  | some r ↦
      or_else r.budget_tokens (budget_of_effort (or_else opts.force_reasoning_effort r.effort))
]

unfoldable pub thinking_control : Option ℕ → Option Value
unfolding show
thinking_control none = none
thinking_control (some budget) =
    some
      (object (field "budget_tokens" (number (show budget)) (field "type" (string "enabled") end)))

abbrev pub when : Bool → Value → Option Value
when b v = if b then some v else none

abbrev pub unless : Bool → Value → Option Value
unless b v = if b then none else some v

abbrev pub is_end : Fields → Bool
is_end end = true
is_end (field k v fields) = false

module _ (f32_value : ℕ → Value) where
  abbrev pub f32_opt : Option ℕ → Option Value
  f32_opt x = elim x [ none ↦ none | some n ↦ some (f32_value n) ]

  abbrev pub choice_opt : Option ToolChoice → Option Value
  choice_opt c = elim c [ none ↦ none | some tc ↦ some (emit_tool_choice tc) ]

  -- What is in the body from the first on, and what is inserted where it is there.
  unfoldable pub body_of : ChatRequest → EmitOptions → Fields
  unfolding show insert_opt insert_field effective_system of_list emit_result_content message_values
      tool_values emit_tool_choice stop_values budget_of thinking_control
  body_of req opts =
      let prompt = effective_system req in
      insert_opt "output_config" req.output_config (
        insert_opt "context_management" req.context_management (
          insert_opt "metadata" (unless (is_end req.metadata) (object req.metadata)) (
            insert_opt "thinking" (thinking_control (budget_of req opts)) (
              insert_opt "stream" (when opts.stream (bool true)) (
                insert_opt "stop_sequences"
                  (unless (is_nil req.stop) (array (stop_values req.stop)))
                  (insert_opt "top_p" (f32_opt req.top_p) (
                    insert_opt "temperature" (f32_opt req.temperature) (
                      insert_opt "tool_choice" (choice_opt req.tool_choice) (
                        insert_opt "tools"
                          (unless (is_nil req.tools) (array (tool_values req.tools)))
                          (insert_field "messages" (array (message_values req.messages)) (
                            insert_opt "system"
                              (unless (is_nil prompt) (emit_result_content (of_list prompt)))
                              (insert_field "max_tokens"
                                (number (show (unwrap_or req.max_tokens 4096)))
                                (field "model"
                                  (string (
                                    if opts.target_model == ""
                                    then req.model
                                    else opts.target_model))
                                  end)))))))))))))

  unfoldable pub emit_request :
      (Value → WireResult String)
      → ChatRequest
      → EmitOptions
      → WireResult (String × List (String × String))
  unfolding body_of
  emit_request to_vec req opts =
      and_then
        (λ bytes.
          accepted (
            bytes,
            ("content-type", "application/json") ∷ ("anthropic-version", "2023-06-01") ∷ [],
          ))
        (to_vec (object (body_of req opts)))
