-- ===== src/Wire/Anthropic/Blocks/RoundTrip.antt =====
-- crates/yb-wire/src/anthropic.rs: a block that is written is read back as it was.
use sovereign_gateway.Base.{String, ◌≡◌, refl, Bool, true, false, Option, none, some, if◌then◌else◌}
use package.text.Mathlib.TextLemmas.{append-nil}
use sovereign_gateway.Core.Json.{Value, array, string}
use sovereign_gateway.Wire.Common.{get, opt_str, find_field, as_str}
use sovereign_gateway.Wire.Errors.{accepted}
use sovereign_gateway.Wire.Response.{
  ContentBlock, text, cached_text, image, tool_call, tool_result, thinking, native, Blocks,
  no_blocks, blocks,
}
use sovereign_gateway.Wire.Anthropic.Blocks.{
  parse_content, parse_items, parse_block, block_of, typed_block, text_block, image_block,
  tool_result_block, thinking_block, opt_bool, emit_block, emit_blocks, is_all_text, joined_text,
  control_value, image_value, thinking_value, result_value,
}

-- The source of an image is a URL alone, or data with its type.
abbrev pub IsSource : Option String → Option String → Option String → Type 0
IsSource media_type data_ (some url) = (media_type ≡ none) × (data_ ≡ none)
IsSource (some media_type) (some data_) none = Unit
IsSource (some media_type) none none = ⊥
IsSource none data_ none = ⊥

-- The content of a tool's result is one text, or not text alone.
abbrev pub IsWhole : Blocks → Type 0
IsWhole no_blocks = ⊥
IsWhole (blocks (text t) no_blocks) = Unit
IsWhole (blocks b bs) = is_all_text (blocks b bs) ≡ false

unfoldable mutual
  -- What the format has a form of its own for: a block that is not known is one that was read as such.
  pub IsWritable : ContentBlock → Type 0
  IsWritable (text t) = Unit
  IsWritable (cached_text t ttl) = Unit
  IsWritable (image media_type data_ url) = IsSource media_type data_ url
  IsWritable (tool_call id name input) = Unit
  IsWritable (tool_result id content is_error) = IsWhole content × AreWritable content
  IsWritable (thinking t signature) = Unit
  IsWritable (native format raw) =
      (format ≡ "anthropic") × (parse_block raw ≡ accepted (native "anthropic" raw))

  pub AreWritable : Blocks → Type 0
  AreWritable no_blocks = Unit
  AreWritable (blocks b bs) = IsWritable b × AreWritable bs

-- The content of a result, as it is written.
abbrev pub content_value : Blocks → Value
content_value content =
    if is_all_text content then string (joined_text content) else array (emit_blocks content)

parse_block-result :
    (id : String) (content : Blocks) (v : Value) (is_error : Bool)
    → parse_content v ≡ accepted content
    → parse_block (result_value id v is_error) ≡ accepted (tool_result id content is_error)
unfolding parse_block block_of typed_block tool_result_block opt_str get find_field as_str opt_bool
    result_value
parse_block-result id content v true h = rw h refl
parse_block-result id content v false h = rw h refl

pub parse_content-content_value :
    (content : Blocks)
    → IsWhole content
    → parse_items (emit_blocks content) ≡ accepted content
    → parse_content (content_value content) ≡ accepted content
unfolding parse_content is_all_text joined_text
parse_content-content_value no_blocks h k = elim h [ ]
parse_content-content_value (blocks (text t) no_blocks) h k = rw (append-nil t) refl
parse_content-content_value (blocks (text t) (blocks b bs)) h k = rw h k
parse_content-content_value (blocks (cached_text t ttl) bs) h k = k
parse_content-content_value (blocks (image media_type data_ url) bs) h k = k
parse_content-content_value (blocks (tool_call id name input) bs) h k = k
parse_content-content_value (blocks (tool_result id content is_error) bs) h k = k
parse_content-content_value (blocks (thinking t signature) bs) h k = k
parse_content-content_value (blocks (native format raw) bs) h k = k

parse_block-cached :
    (t : String) (ttl : Option String)
    → parse_block (emit_block (cached_text t ttl)) ≡ accepted (cached_text t ttl)
unfolding parse_block emit_block control_value block_of typed_block text_block opt_str get
    find_field as_str
parse_block-cached t none = refl
parse_block-cached t (some ttl) = refl

parse_block-image :
    (media_type data_ url : Option String)
    → IsSource media_type data_ url
    → parse_block (image_value media_type data_ url) ≡ accepted (image media_type data_ url)
unfolding parse_block image_value block_of typed_block image_block opt_str get find_field as_str
parse_block-image media_type data_ (some url) (h, k) = rw (h, k) refl
parse_block-image (some media_type) (some data_) none h = refl
parse_block-image none data_ none h = elim h [ ]
parse_block-image (some media_type) none none h = elim h [ ]

parse_block-thinking :
    (t : String) (signature : Option String)
    → parse_block (thinking_value t signature) ≡ accepted (thinking t signature)
unfolding parse_block thinking_value block_of typed_block thinking_block opt_str get find_field
    as_str
parse_block-thinking t none = refl
parse_block-thinking t (some signature) = refl

mutual
  unfolding IsWritable parse_content emit_block

  pub parse_block-emit_block :
      (b : ContentBlock) → IsWritable b → parse_block (emit_block b) ≡ accepted b
  parse_block-emit_block (text t) h = refl
  parse_block-emit_block (cached_text t ttl) h = parse_block-cached t ttl
  parse_block-emit_block (image media_type data_ url) h = parse_block-image media_type data_ url h
  parse_block-emit_block (tool_call id name input) h = refl
  parse_block-emit_block (tool_result id content is_error) (h, k) =
      parse_block-result id content (content_value content) is_error
        (parse_content-content_value content h (parse_items-emit_blocks content k))
  parse_block-emit_block (thinking t signature) h = parse_block-thinking t signature
  parse_block-emit_block (native format raw) (h, k) = rw h k

  pub parse_items-emit_blocks :
      (bs : Blocks) → AreWritable bs → parse_items (emit_blocks bs) ≡ accepted bs
  parse_items-emit_blocks no_blocks h = refl
  parse_items-emit_blocks (blocks b bs) (h, k) =
      rw (parse_block-emit_block b h, parse_items-emit_blocks bs k) refl
