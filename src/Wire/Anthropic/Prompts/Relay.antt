-- ===== src/Wire/Anthropic/Prompts/Relay.antt =====
-- crates/yb-wire/src/anthropic.rs: a request for an Anthropic upstream, field by field.
use sovereign_gateway.Base.{
  ℕ, ◌^◌, ◌<◌, String, ◌≡◌, refl, ap, Bool, true, false, Option, none, some, List, [], ◌∷◌, map,
  ◌==◌, if◌then◌else◌, unwrap_or, is_nil,
}
use sovereign_gateway.Base.Text.{show}
use sovereign_gateway.Core.Json.{Value, bool, number, string, array, object, Fields, end, field}
use sovereign_gateway.Wire.Anthropic.Answers.{of_list, content_of}
use sovereign_gateway.Wire.Anthropic.Answers.RoundTrip.{to_list-of_list, count_of-show}
use sovereign_gateway.Wire.Anthropic.Blocks.{opt_bool, emit_result_content}
use sovereign_gateway.Wire.Anthropic.Blocks.RoundTrip.{
  AreWritable, IsWhole, parse_items-emit_blocks, parse_content-content_value,
}
use sovereign_gateway.Wire.Anthropic.Requests.{
  EmitOptions, listed, optional, items_of, fields_of, opt_f32, read_tools, parse_tool_choice,
  texts_of, read_reasoning,
}
use sovereign_gateway.Wire.Anthropic.Prompts.{
  when, unless, is_end, f32_opt, choice_opt, message_values, tool_values, stop_values, budget_of,
  thinking_control, body_of,
}
use sovereign_gateway.Wire.Anthropic.Prompts.Lookups.{
  find_field-insert_field, find_field-insert_opt,
}
use sovereign_gateway.Wire.Anthropic.Prompts.RoundTrip.{
  turns, lenient, or_else-none, read_tools-tool_values, parse_tool_choice-emit_tool_choice,
  texts_of-stop_values,
}
use sovereign_gateway.Wire.Common.{get, opt_u32, find_field}
use sovereign_gateway.Wire.Errors.{accepted}
use sovereign_gateway.Wire.Request.{
  Tool, ToolChoice, Reasoning, ChatRequest, default_request, effective_system,
}
use sovereign_gateway.Wire.Response.{ContentBlock}

ruleset lookups = (find_field-insert_opt, find_field-insert_field, or_else-none)

module _ (f32_value : ℕ → Value) (req : ChatRequest) (opts : EmitOptions) where
  abbrev pub body : Value
  body = object (body_of f32_value req opts)

  abbrev pub model_of : String
  model_of = if opts.target_model == "" then req.model else opts.target_model

  abbrev pub prompt_of : List ContentBlock
  prompt_of = effective_system req

  -- What is found under the keys of the body.
  abbrev pub IsBody : Type 0
  IsBody =
      (get body "model" ≡ some (string model_of))
      × (get body "max_tokens" ≡ some (number (show (unwrap_or req.max_tokens 4096))))
      × (get body "system" ≡ unless (is_nil prompt_of) (emit_result_content (of_list prompt_of)))
      × (get body "messages" ≡ some (array (message_values req.messages)))
      × (get body "tools" ≡ unless (is_nil req.tools) (array (tool_values req.tools)))
      × (get body "tool_choice" ≡ choice_opt f32_value req.tool_choice)
      × (get body "temperature" ≡ f32_opt f32_value req.temperature)
      × (get body "top_p" ≡ f32_opt f32_value req.top_p)
      × (get body "stop_sequences" ≡ unless (is_nil req.stop) (array (stop_values req.stop)))
      × (get body "stream" ≡ when opts.stream (bool true))
      × (get body "thinking" ≡ thinking_control (budget_of req opts))
      × (get body "metadata" ≡ unless (is_end req.metadata) (object req.metadata))
      × (get body "context_management" ≡ req.context_management)
      × (get body "output_config" ≡ req.output_config)

  pub body-IsBody : IsBody
  unfolding body_of get find_field
  body-IsBody = (
    simp lookups refl,
    simp lookups refl,
    simp lookups refl,
    simp lookups refl,
    simp lookups refl,
    simp lookups refl,
    simp lookups refl,
    simp lookups refl,
    simp lookups refl,
    simp lookups refl,
    simp lookups refl,
    simp lookups refl,
    simp lookups refl,
    simp lookups refl,
  )

-- A system prompt is one text, or not text alone.
abbrev pub IsPrompt : List ContentBlock → Type 0
IsPrompt [] = Unit
IsPrompt (b ∷ bs) = IsWhole (of_list (b ∷ bs)) × AreWritable (of_list (b ∷ bs))

abbrev pub IsSmall : Option ℕ → Type 0
IsSmall none = Unit
IsSmall (some n) = n < 2 ^ 32

abbrev pub reasoning_of : Option ℕ → Option Reasoning
reasoning_of none = none
reasoning_of (some budget) = some (record { effort = none; budget_tokens = some budget })

-- The request as an upstream of the format sees it.
abbrev pub relayed : ChatRequest → EmitOptions → ChatRequest
relayed req opts = record default_request {
  model = if opts.target_model == "" then req.model else opts.target_model;
  messages = turns req.messages;
  system = if is_nil (effective_system req) then none else some (effective_system req);
  tools = map lenient req.tools;
  tool_choice = req.tool_choice;
  max_tokens = some (unwrap_or req.max_tokens 4096);
  temperature = req.temperature;
  top_p = req.top_p;
  stop = req.stop;
  stream = opts.stream;
  reasoning = reasoning_of (budget_of req opts);
  metadata = req.metadata;
  context_management = req.context_management;
  output_config = req.output_config;
}

pub listed-prompt :
    (bs : List ContentBlock)
    → IsPrompt bs
    → listed (unless (is_nil bs) (emit_result_content (of_list bs)))
      ≡ accepted (if is_nil bs then none else some bs)
unfolding content_of emit_result_content
listed-prompt [] h = refl
listed-prompt (b ∷ bs) (h, k) =
    rw
      (
        parse_content-content_value (of_list (b ∷ bs)) h
            (parse_items-emit_blocks (of_list (b ∷ bs)) k),
        to_list-of_list (b ∷ bs),
      )
      refl

pub tools-read :
    (ts : List Tool)
    → read_tools (items_of (unless (is_nil ts) (array (tool_values ts))))
      ≡ accepted (map lenient ts)
unfolding read_tools
tools-read [] = refl
tools-read (t ∷ ts) = read_tools-tool_values (t ∷ ts)

pub stop-read :
    (ss : List String) → texts_of (items_of (unless (is_nil ss) (array (stop_values ss)))) ≡ ss
unfolding texts_of
stop-read [] = refl
stop-read (s ∷ ss) = texts_of-stop_values (s ∷ ss)

pub choice-read :
    (f32_value : ℕ → Value) (c : Option ToolChoice)
    → optional parse_tool_choice (choice_opt f32_value c) ≡ accepted c
choice-read f32_value none = refl
choice-read f32_value (some c) = rw (parse_tool_choice-emit_tool_choice c) refl

-- An `f32` that is given is read as it was written, as a finite one is.
abbrev pub IsExact : (ℕ → Value) → (Value → Option ℕ) → Option ℕ → Type 0
IsExact f32_value as_f32 none = Unit
IsExact f32_value as_f32 (some n) = as_f32 (f32_value n) ≡ some n

pub f32-read :
    (f32_value : ℕ → Value) (as_f32 : Value → Option ℕ)
    → (x : Option ℕ) → IsExact f32_value as_f32 x
    → opt_f32 as_f32 (f32_opt f32_value x) ≡ x
f32-read f32_value as_f32 none h = refl
f32-read f32_value as_f32 (some n) h = h

pub metadata-read : (fields : Fields) → fields_of (unless (is_end fields) (object fields)) ≡ fields
metadata-read end = refl
metadata-read (field k v fields) = refl

pub opt_bool-when :
    (v : Value) (key : String) (b : Bool) → get v key ≡ when b (bool true) → opt_bool v key ≡ b
unfolding opt_bool
opt_bool-when v key true h = rw (opt_bool, h) refl
opt_bool-when v key false h = rw (opt_bool, h) refl

pub opt_u32-show :
    (v : Value) (key : String) (n : ℕ)
    → n < 2 ^ 32
    → get v key ≡ some (number (show n))
    → opt_u32 v key ≡ some n
unfolding opt_u32
opt_u32-show v key n small h = rw (opt_u32, h) (count_of-show n small)

pub read_reasoning-thinking_control :
    (v : Value) (budget : Option ℕ)
    → IsSmall budget
    → get v "thinking" ≡ thinking_control budget
    → read_reasoning v ≡ reasoning_of budget
unfolding read_reasoning thinking_control
read_reasoning-thinking_control v none small h = rw (read_reasoning, h) refl
read_reasoning-thinking_control v (some n) small h =
    let put : Option ℕ → Option Reasoning =
      λ b. some (record { effort = none; budget_tokens = b }) in
    rw (read_reasoning, h) (ap put (count_of-show n small))
