-- ===== src/Wire/Anthropic/Prompts/RoundTrip.antt =====
-- crates/yb-wire/src/anthropic.rs: a request that is written for an Anthropic upstream is read back.
use sovereign_gateway.Base.{
  String, ◌≡◌, refl, ap, Option, none, some, List, [], ◌∷◌, map, or_else, All,
}
use sovereign_gateway.Core.Json.{Value, string, object, end, field}
use sovereign_gateway.Wire.Anthropic.Answers.{of_list, content_of}
use sovereign_gateway.Wire.Anthropic.Answers.RoundTrip.{to_list-of_list}
use sovereign_gateway.Wire.Anthropic.Blocks.{parse_content}
use sovereign_gateway.Wire.Anthropic.Blocks.RoundTrip.{AreWritable, parse_items-emit_blocks}
use sovereign_gateway.Wire.Anthropic.Requests.{
  read_role, read_message, read_messages, read_tool, read_tools, parse_tool_choice,
  emit_tool_choice, texts_of,
}
use sovereign_gateway.Wire.Anthropic.Prompts.{
  message_content, emit_message, message_values, tool_value, tool_values, stop_values, string_opt,
}
use sovereign_gateway.Wire.Anthropic.Prompts.Lookups.{
  find_field-insert_field, find_field-insert_opt,
}
use sovereign_gateway.Wire.Common.{get, opt_str, find_field, as_str}
use sovereign_gateway.Wire.Errors.{accepted}
use sovereign_gateway.Wire.Request.{
  Role, user, assistant, system, developer, tool, Message, Tool, ToolChoice, auto, forbidden,
  required, named,
}
use sovereign_gateway.Wire.Response.{
  ContentBlock, text, cached_text, image, tool_call, tool_result, thinking, native,
}

-- The messages that an upstream sees: no system ones, and the results of tools are a user's.
unfoldable pub turns : List Message → List Message
turns [] = []
turns (m ∷ ms) =
    let rest = turns ms in
    elim m.role [
      | assistant ↦ m ∷ rest
      | user ↦ m ∷ rest
      | tool ↦ record m { role = user } ∷ rest
      | system ↦ rest
      | developer ↦ rest
    ]

content_of-message_content :
    (bs : List ContentBlock)
    → AreWritable (of_list bs)
    → content_of (some (message_content bs)) ≡ accepted (of_list bs)
unfolding content_of message_content parse_content of_list
content_of-message_content [] h = refl
content_of-message_content (text t ∷ []) h = refl
content_of-message_content (text t ∷ b ∷ bs) h =
    parse_items-emit_blocks (of_list (text t ∷ b ∷ bs)) h
content_of-message_content (cached_text t ttl ∷ bs) h =
    parse_items-emit_blocks (of_list (cached_text t ttl ∷ bs)) h
content_of-message_content (image m d u ∷ bs) h =
    parse_items-emit_blocks (of_list (image m d u ∷ bs)) h
content_of-message_content (tool_call id name input ∷ bs) h =
    parse_items-emit_blocks (of_list (tool_call id name input ∷ bs)) h
content_of-message_content (tool_result id c e ∷ bs) h =
    parse_items-emit_blocks (of_list (tool_result id c e ∷ bs)) h
content_of-message_content (thinking t s ∷ bs) h =
    parse_items-emit_blocks (of_list (thinking t s ∷ bs)) h
content_of-message_content (native f raw ∷ bs) h =
    parse_items-emit_blocks (of_list (native f raw ∷ bs)) h

read_message-said :
    (role : String) (m : Message)
    → AreWritable (of_list m.content)
    → read_message
        (object (field "content" (message_content m.content) (field "role" (string role) end)))
      ≡ read_role (some role) m.content
unfolding read_message get opt_str find_field as_str
read_message-said role m h =
    rw (content_of-message_content m.content h, to_list-of_list m.content) refl

abbrev pub IsReadBack : List Message → Type 0
IsReadBack ms =
    (prompt : Option (List ContentBlock))
    → read_messages (message_values ms) prompt ≡ accepted (prompt, turns ms)

cons-IsReadBack :
    (role : Role) (content : List ContentBlock) (ms : List Message)
    → AreWritable (of_list content)
    → IsReadBack ms
    → IsReadBack (record { role = role; content = content } ∷ ms)
unfolding read_messages message_values emit_message turns read_role
cons-IsReadBack system content ms h ih prompt = ih prompt
cons-IsReadBack developer content ms h ih prompt = ih prompt
cons-IsReadBack user content ms h ih prompt =
    rw
      (
        read_messages,
        read_message-said "user" (record { role = user; content = content }) h,
        ih prompt,
      )
      refl
cons-IsReadBack tool content ms h ih prompt =
    rw
      (
        read_messages,
        read_message-said "user" (record { role = tool; content = content }) h,
        ih prompt,
      )
      refl
cons-IsReadBack assistant content ms h ih prompt =
    rw
      (
        read_messages,
        read_message-said "assistant" (record { role = assistant; content = content }) h,
        ih prompt,
      )
      refl

pub read_messages-message_values :
    (ms : List Message) → All (λ (m : Message). AreWritable (of_list m.content)) ms → IsReadBack ms
unfolding read_messages message_values turns
read_messages-message_values [] h = λ prompt. refl
read_messages-message_values (m ∷ ms) (h, hs) =
    cons-IsReadBack m.role m.content ms h (read_messages-message_values ms hs)

-- The format has no place for strict calls.
abbrev pub lenient : Tool → Tool
lenient t = record t { strict = none }

abbrev IsTool : Tool → Type 0
IsTool t =
    (get (tool_value t) "name" ≡ some (string t.name))
    × (get (tool_value t) "description" ≡ string_opt t.description)
    × (get (tool_value t) "input_schema" ≡ some t.input_schema)
    × (get (tool_value t) "cache_control" ≡ t.anthropic_cache_control)

pub or_else-none : {A : Type 0} (x : Option A) → or_else x none ≡ x
or_else-none none = refl
or_else-none (some a) = refl

pub opt_str-get :
    (v : Value) (key : String) (x : Option String) → get v key ≡ string_opt x → opt_str v key ≡ x
unfolding opt_str as_str
opt_str-get v key none h = rw (opt_str, h) refl
opt_str-get v key (some t) h = rw (opt_str, h) refl

tool_value-IsTool : (t : Tool) → IsTool t
unfolding tool_value get opt_str find_field
tool_value-IsTool t = (
  simp (find_field-insert_opt, find_field-insert_field) refl,
  simp (find_field-insert_opt, find_field-insert_field) (or_else-none (string_opt t.description)),
  simp (find_field-insert_opt, find_field-insert_field) refl,
  simp (find_field-insert_opt, find_field-insert_field) (or_else-none t.anthropic_cache_control),
)

read_tool-tool_value : (t : Tool) → read_tool (tool_value t) ≡ accepted (lenient t)
unfolding read_tool
read_tool-tool_value t =
    let (name, description, schema, control) = tool_value-IsTool t in
    let named : opt_str (tool_value t) "name" ≡ some t.name =
      opt_str-get (tool_value t) "name" (some t.name) name in
    let described : opt_str (tool_value t) "description" ≡ t.description =
      opt_str-get (tool_value t) "description" t.description description in
    rw (read_tool, named, described, schema, control) refl

pub read_tools-tool_values :
    (ts : List Tool) → read_tools (tool_values ts) ≡ accepted (map lenient ts)
unfolding read_tools tool_values read_tool tool_value
read_tools-tool_values [] = refl
read_tools-tool_values (t ∷ ts) = rw (read_tool-tool_value t, read_tools-tool_values ts) refl

pub parse_tool_choice-emit_tool_choice :
    (c : ToolChoice) → parse_tool_choice (emit_tool_choice c) ≡ accepted c
unfolding parse_tool_choice emit_tool_choice opt_str get find_field as_str
parse_tool_choice-emit_tool_choice auto = refl
parse_tool_choice-emit_tool_choice forbidden = refl
parse_tool_choice-emit_tool_choice required = refl
parse_tool_choice-emit_tool_choice (named name) = refl

pub texts_of-stop_values : (ss : List String) → texts_of (stop_values ss) ≡ ss
unfolding texts_of stop_values
texts_of-stop_values [] = refl
texts_of-stop_values (s ∷ ss) = ap (λ l. s ∷ l) (texts_of-stop_values ss)
