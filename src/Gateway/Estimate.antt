-- ===== src/Gateway/Estimate.antt =====
-- crates/yb-gateway/src/service.rs: the size of a request, as a signal for routing.
use sovereign_gateway.Base.{
  ℕ, ◌+◌, ◌-◌, Bool, true, false, List, [], ◌∷◌, ◌++◌, any, unwrap_or, ◌/◌, ◌^◌,
}
use Prim.Native.String.{len}
use Prim.Native.Nat.{min}
use mathlib.Core.List.{flat_map}
use sovereign_gateway.Wire.Request.{ChatRequest, Message}
use sovereign_gateway.Wire.Response.{
  ContentBlock, text, cached_text, thinking, tool_call, tool_result, image, native,
}

abbrev pub is_image : ContentBlock → Bool
is_image (image media_type data_ url) = true
is_image (text t) = false
is_image (cached_text t ttl) = false
is_image (tool_call id name input) = false
is_image (tool_result id content is_error) = false
is_image (thinking t signature) = false
is_image (native format raw) = false

-- The blocks of all messages, in order.
unfoldable pub message_blocks : List Message → List ContentBlock
message_blocks ms = flat_map (λ (m : Message). m.content) ms

unfoldable pub has_images : ChatRequest → Bool
unfolding any message_blocks
has_images c = any is_image (message_blocks c.messages)

-- The bytes of a block of text; the sum is far below the 2^64 of a `usize`.
abbrev pub text_bytes : ContentBlock → ℕ
text_bytes (text t) = len t
text_bytes (image media_type data_ url) = 0
text_bytes (cached_text t ttl) = 0
text_bytes (tool_call id name input) = 0
text_bytes (tool_result id content is_error) = 0
text_bytes (thinking t signature) = 0
text_bytes (native format raw) = 0

unfoldable pub total_bytes : List ContentBlock → ℕ
total_bytes [] = 0
total_bytes (b ∷ bs) = text_bytes b + total_bytes bs

unfoldable pub estimate_tokens : ChatRequest → ℕ
unfolding total_bytes message_blocks
estimate_tokens c =
    min (total_bytes (unwrap_or c.system [] ++ message_blocks c.messages) / 4) (2 ^ 32 - 1)
