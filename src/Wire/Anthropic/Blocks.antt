-- ===== src/Wire/Anthropic/Blocks.antt =====
-- crates/yb-wire/src/anthropic.rs: the blocks of content, read and written. A JSON object is sorted by its
-- keys, as serde_json keeps it.
pub mod RoundTrip
use sovereign_gateway.Base.{
  String, Bool, true, false, not, ◌&&◌, ◌==◌, Option, none, some, List, [], ◌∷◌, if◌then◌else◌,
  unwrap_or,
}
use sovereign_gateway.Core.Json.{
  Value, null, bool, number, string, array, object, Items, nil, cons, Fields, end, field,
}
use sovereign_gateway.Wire.Aggregate.{push_str}
use sovereign_gateway.Wire.Common.{get, opt_str}
use sovereign_gateway.Wire.Errors.{
  WireResult, accepted, rejected, missing_field, invalid_field, and_then,
}
use sovereign_gateway.Wire.Response.{
  ContentBlock, text, cached_text, image, tool_call, tool_result, thinking, native, Blocks,
  no_blocks, blocks,
}

unfoldable pub opt_bool : Value → String → Bool
unfolding get
opt_bool v key = elim (get v key) [ none ↦ false | some w ↦ elim w [ bool b ↦ b | _ ↦ false ] ]

abbrev is_there : Option Value → Bool
is_there none = false
is_there (some v) = true

abbrev or_empty : Option String → String
or_empty s = unwrap_or s ""

abbrev raw_block : Value → ContentBlock
raw_block b = native "anthropic" b

unfoldable pub text_block : Value → ContentBlock
unfolding get opt_str
text_block b =
    let t = or_empty (opt_str b "text") in
    elim (get b "cache_control") [
      | none ↦ text t
      | some control ↦
          if or_empty (opt_str control "type") == "ephemeral"
          then cached_text t (opt_str control "ttl")
          else raw_block b
    ]

unfoldable pub image_block : Value → ContentBlock
unfolding get opt_str
image_block b =
    let src = unwrap_or (get b "source") null in
    if or_empty (opt_str src "type") == "url"
    then image none none (opt_str src "url")
    else image (opt_str src "media_type") (opt_str src "data") none

unfoldable pub tool_call_block : Value → ContentBlock
unfolding get opt_str
tool_call_block b =
    tool_call (or_empty (opt_str b "id")) (or_empty (opt_str b "name"))
      (unwrap_or (get b "input") (object end))

unfoldable pub tool_result_block : Value → Option (WireResult Blocks) → WireResult ContentBlock
unfolding opt_str opt_bool
tool_result_block b content =
    and_then
      (λ bs. accepted (tool_result (or_empty (opt_str b "tool_use_id")) bs (opt_bool b "is_error")))
      (unwrap_or content (accepted no_blocks))

unfoldable pub thinking_block : Value → ContentBlock
unfolding opt_str
thinking_block b = thinking (or_empty (opt_str b "thinking")) (opt_str b "signature")

-- A block of a type; a kind that is not known is carried as it is, its own type put back.
unfoldable pub typed_block : String → Value → Option (WireResult Blocks) → WireResult ContentBlock
unfolding text_block get image_block tool_call_block tool_result_block thinking_block
typed_block kind b content =
    if kind == "text"
    then accepted (text_block b)
    else if is_there (get b "cache_control")
    then accepted (raw_block b)
    else if kind == "image"
    then accepted (image_block b)
    else if kind == "tool_use"
    then accepted (tool_call_block b)
    else if kind == "tool_result"
    then tool_result_block b content
    else if kind == "thinking"
    then accepted (thinking_block b)
    else accepted (raw_block b)

-- What a block is, for its parsed content.
unfoldable pub block_of : Value → Option (WireResult Blocks) → WireResult ContentBlock
unfolding get opt_str typed_block
block_of b content = elim (opt_str b "type") [
  | some kind ↦ typed_block kind b content
  | none ↦
      if is_there (get b "cache_control")
      then accepted (raw_block b)
      else rejected (missing_field "content[].type")
]

abbrev pub append_block : WireResult ContentBlock → WireResult Blocks → WireResult Blocks
append_block b bs = and_then (λ c. and_then (λ cs. accepted (blocks c cs)) bs) b

unfoldable mutual
  unfolding block_of

  pub parse_content : Value → WireResult Blocks
  parse_content (string s) = accepted (blocks (text s) no_blocks)
  parse_content (array items) = parse_items items
  parse_content null = accepted no_blocks
  parse_content (bool b) = rejected (invalid_field "content" "expected string or array")
  parse_content (number n) = rejected (invalid_field "content" "expected string or array")
  parse_content (object fields) = rejected (invalid_field "content" "expected string or array")

  pub parse_items : Items → WireResult Blocks
  parse_items nil = accepted no_blocks
  parse_items (cons v items) = append_block (parse_block v) (parse_items items)

  pub parse_block : Value → WireResult ContentBlock
  parse_block (object fields) = block_of (object fields) (parsed_field fields)
  parse_block null = block_of null none
  parse_block (bool b) = block_of (bool b) none
  parse_block (number n) = block_of (number n) none
  parse_block (string s) = block_of (string s) none
  parse_block (array items) = block_of (array items) none

  -- The content that an object has, parsed.
  pub parsed_field : Fields → Option (WireResult Blocks)
  parsed_field end = none
  parsed_field (field k v fields) =
      let rest = parsed_field fields in
      let content = parse_content v in if k == "content" then some content else rest

unfoldable pub is_all_text : Blocks → Bool
is_all_text no_blocks = true
is_all_text (blocks b bs) = let rest = is_all_text bs in elim b [ text t ↦ rest | _ ↦ false ]

unfoldable pub joined_text : Blocks → String
joined_text no_blocks = ""
joined_text (blocks b bs) =
    let rest = joined_text bs in elim b [ text t ↦ push_str t rest | _ ↦ rest ]

unfoldable pub control_value : Option String → Value
control_value none = object (field "type" (string "ephemeral") end)
control_value (some ttl) = object (field "ttl" (string ttl) (field "type" (string "ephemeral") end))

unfoldable pub image_value : Option String → Option String → Option String → Value
image_value media_type data_ (some url) = object (
    field "source" (object (field "type" (string "url") (field "url" (string url) end)))
      (field "type" (string "image") end))
image_value media_type data_ none = object (
    field "source"
      (object (
        field "data" (string (or_empty data_)) (
          field "media_type" (string (unwrap_or media_type "image/png"))
            (field "type" (string "base64") end))))
      (field "type" (string "image") end))

unfoldable pub thinking_value : String → Option String → Value
thinking_value t none = object (field "thinking" (string t) (field "type" (string "thinking") end))
thinking_value t (some signature) = object (
    field "signature" (string signature)
      (field "thinking" (string t) (field "type" (string "thinking") end)))

unfoldable pub result_value : String → Value → Bool → Value
result_value id content false = object (
    field "content" content
      (field "tool_use_id" (string id) (field "type" (string "tool_result") end)))
result_value id content true = object (
    field "content" content (
      field "is_error" (bool true)
        (field "tool_use_id" (string id) (field "type" (string "tool_result") end))))

unfoldable mutual
  unfolding is_all_text joined_text control_value image_value thinking_value result_value

  pub emit_block : ContentBlock → Value
  emit_block (text t) = object (field "text" (string t) (field "type" (string "text") end))
  emit_block (cached_text t ttl) = object (
      field "cache_control" (control_value ttl)
        (field "text" (string t) (field "type" (string "text") end)))
  emit_block (image media_type data_ url) = image_value media_type data_ url
  emit_block (tool_call id name input) = object (
      field "id" (string id)
        (field "input" input (field "name" (string name) (field "type" (string "tool_use") end))))
  emit_block (tool_result id content is_error) =
      let items = emit_blocks content in
      result_value id (if is_all_text content then string (joined_text content) else array items)
        is_error
  emit_block (thinking t signature) = thinking_value t signature
  emit_block (native format raw) =
      if format == "anthropic"
      then raw
      else object (field "text" (string "") (field "type" (string "text") end))

  pub emit_blocks : Blocks → Items
  emit_blocks no_blocks = nil
  emit_blocks (blocks b bs) = cons (emit_block b) (emit_blocks bs)

-- The content of a tool's result and a system prompt: one text, where all is text.
unfoldable pub emit_result_content : Blocks → Value
unfolding is_all_text joined_text emit_blocks
emit_result_content content =
    if is_all_text content then string (joined_text content) else array (emit_blocks content)
