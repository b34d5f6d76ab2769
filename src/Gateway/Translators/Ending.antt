-- ===== src/Gateway/Translators/Ending.antt =====
-- crates/yb-gateway/src/wire.rs: a whole stream that is written for a client of the OpenAI Chat surface.
use sovereign_gateway.Base.{Bool, List, ◌∷◌, ◌++◌, ◌≡◌, refl, All}
use sovereign_gateway.Core.Formats.{WireFormat}
use sovereign_gateway.Wire.Response.{StreamEvent, StopReason, done}
use sovereign_gateway.Wire.OpenaiChat
use sovereign_gateway.Wire.OpenaiChat.{Chunk, chunks_text, encode_events, encode_sse}
use sovereign_gateway.Wire.OpenaiChat.Ending.{IsBeforeEnd, IsUsage, IsEnded, all_chunks-IsEnded}
use sovereign_gateway.Gateway.Translators.{Surfaces, new_encoder, set_include_usage, encode, finish}

-- A new encoder of the OpenAI Chat surface, with the client's wish about the usage, writes for events that have one
-- end after which only usage comes the text of some chunks, and `finish` the text of some more; together
-- they have the mark that ends a stream once, as the last of them.
pub finish-IsEnded :
    (s : Surfaces) (wanted : Bool) (before : List StreamEvent) (reason : StopReason)
    (after : List StreamEvent)
    → All IsBeforeEnd before
    → All IsUsage after
    → let e = set_include_usage s wanted (new_encoder s WireFormat.openai_chat) in
      let (e1, bytes) = encode s e (before ++ done reason ∷ after) in
      (chunks : List Chunk) × (owed : List Chunk) × IsEnded (chunks ++ owed)
      × (bytes ≡ s.as_bytes (chunks_text s.json chunks))
      × ((finish s e1).1 ≡ s.as_bytes (chunks_text s.json owed))
unfolding set_include_usage new_encoder encode finish encode_sse
finish-IsEnded s wanted before reason after b a =
    let st = record OpenaiChat.new_emit_state { include_usage = wanted } in
    let events = before ++ done reason ∷ after in
    let (st1, chunks) = encode_events events st in
    (
      chunks,
      (OpenaiChat.finish st1).1,
      all_chunks-IsEnded before reason after st b a refl,
      refl,
      refl,
    )
