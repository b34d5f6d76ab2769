-- ===== src/Wire/Anthropic/Relay.antt =====
-- crates/yb-wire/src/anthropic.rs: an answer that is written for an Anthropic client and read again.
pub mod Frames
pub mod Lines
pub mod Positions
pub mod Framing
use text.Mathlib.TextLemmas
use sovereign_gateway.Base.{
  ℕ, ◌+◌, String, ◌≡◌, refl, sym, ap, ◌∙◌, inl, inr, Bool, true, false, not, Option, none, some,
  List, [], ◌∷◌, ◌++◌, map, ◌==◌, Bool-cases, select, select-append, All,
}
use sovereign_gateway.Wire.Response.{
  StreamEvent, text_delta, done, thinking_delta, tool_use_delta, tool_use_start, message_start,
  usage_delta, StopReason,
}
use mathlib.Core.List.{append_assoc}
use mathlib.Core.Path.{ap₂, subst}
use sovereign_gateway.Core.Json.{Value, object, field, string, end}
use sovereign_gateway.Wire.Aggregate.{Json, push_str}
use sovereign_gateway.Wire.Anthropic.Relay.Lines.{is_line, lines_of, AreLines, split-frames_text}
use sovereign_gateway.Wire.Anthropic.Relay.Framing.{encode_events-IsFramed}
use sovereign_gateway.Wire.Anthropic.Relay.Positions.{AreNamed, position, run_frames}
use sovereign_gateway.Base.Text.{split, is_line_feed, trim_end, strip_prefix, strip_prefix-append}
use text.Mathlib.TextLemmas.{cons-append}
use sovereign_gateway.Wire.Anthropic.Decode.{
  decode_value, decode_sse, sse_data, SseState, parse_stop_reason, stop_reason_str,
}
use sovereign_gateway.Wire.Anthropic.Encode.{
  Frame, EmitState, BlockKind, text_block, thinking_block, tool_block, Written, start_frame,
  block_frame, delta_frame, stop_frame, end_frames, emit_message_start, ensure_started, close_open,
  empty_block, is_open, open_block_frames, ensure_block, write_delta, encode_event, encode_events,
  encode_sse,
}
use sovereign_gateway.Wire.Anthropic.Relay.Frames.{
  is_said, canonical_event, said, IsSaying, decode_all, encode_events-IsSaying,
}

unfoldable pub decode_lines : Json → List String → SseState → List StreamEvent
unfolding decode_sse
decode_lines json [] state = []
decode_lines json (line ∷ lines) state =
    let (state1, events) = decode_sse json line state in events ++ decode_lines json lines state1

-- The data of frames is written on one line and read back as it is written, without white space at its
-- end.
abbrev pub IsReadBack : Json → List Frame → Type 0
IsReadBack json frames =
    All
      (λ (name, v).
        (is_line (json.to_string v) ≡ true)
        × (json.from_str (trim_end (json.to_string v)) ≡ some v))
      frames

IsReadBack-AreLines :
    (json : Json) (frames : List Frame)
    → AreNamed frames
    → IsReadBack json frames
    → AreLines json frames
IsReadBack-AreLines json [] n h = tt
IsReadBack-AreLines json ((name, v) ∷ frames) (n, ns) ((line, read), h) =
    ((n, line), IsReadBack-AreLines json frames ns h)

event_line :
    (json : Json) (name : String) (state : SseState)
    → decode_sse json (push_str "event: " name) state ≡ (state, [])
unfolding decode_sse sse_data strip_prefix
event_line json name state =
    let e : push_str "event: " name ≡ String.◌∷◌ "e" (push_str "vent: " name) =
      cons-append "e" "vent: " name in
    rw e refl

sse_data-data : (t : String) → sse_data (push_str "data:" (push_str " " t)) ≡ some (trim_end t)
unfolding sse_data
sse_data-data t =
    rw (sse_data, strip_prefix-append "data:" (push_str " " t), strip_prefix-append " " t) refl

data_line :
    (json : Json) (v : Value) (state : SseState)
    → json.from_str (trim_end (json.to_string v)) ≡ some v
    → decode_sse json (push_str "data: " (json.to_string v)) state ≡ decode_value v state
unfolding decode_sse sse_data strip_prefix
data_line json v state h =
    let t = json.to_string v in
    let e : push_str "data: " t ≡ push_str "data:" (push_str " " t) =
      TextLemmas.append_assoc "data:" " " t in
    rw (e, decode_sse, sse_data-data t, h) refl

decode_lines-lines_of :
    (json : Json) (frames : List Frame) (state : SseState)
    → IsReadBack json frames
    → decode_lines json (lines_of json frames) state ≡ (decode_all frames state).1
unfolding decode_lines decode_all
decode_lines-lines_of json [] state h = refl
decode_lines-lines_of json ((name, v) ∷ frames) state h =
    rw (event_line json name state, data_line json v state h.0.1)
      (ap (λ l. (decode_value v state).1 ++ l)
        (decode_lines-lines_of json frames (decode_value v state).0 h.1))

-- Where the data of the frames that are written is one line each and is read back by the reader of
-- JSON, the text that the encoder writes for events, split at its line feeds and read by the decoder,
-- whichever states the two are in, has the same deltas, tool calls with a name and ends, in the same
-- order, with a stop reason as its text is read; and its frames open each block with the next index
-- where none is open, give it deltas of its kind and index alone, close it before another opens or the
-- message ends, all of it after the message's start, and leave the block open that the encoder holds.
pub decode_lines-encode_sse :
    (json : Json) (events : List StreamEvent) (st : EmitState) (state : SseState)
    → IsReadBack json (encode_events events st).1
    → (select is_said (decode_lines json (split is_line_feed (encode_sse json events st).1) state)
        ≡ select is_said (map canonical_event events))
      × (run_frames (encode_events events st).1 (position st)
          ≡ some (position (encode_sse json events st).0))
unfolding encode_sse IsSaying said
decode_lines-encode_sse json events st state h =
    let frames = (encode_events events st).1 in
    let (framed, named) = encode_events-IsFramed events st in
    let lines = split-frames_text json frames (IsReadBack-AreLines json frames named h) in
    (
      ap (λ l. select is_said (decode_lines json l state)) lines
          ∙ ap (select is_said) (decode_lines-lines_of json frames state h)
          ∙ encode_events-IsSaying events st state,
      framed,
    )
