-- ===== src/Wire/Anthropic/Encode.antt =====
-- crates/yb-wire/src/anthropic.rs, `encode_sse`: events as the frames of an Anthropic stream. The writer
-- of JSON is a parameter.
use Prim.Native.String
use sovereign_gateway.Base.{
  ℕ, ◌+◌, String, Bool, true, false, Option, none, some, List, [], ◌∷◌, ◌++◌, if◌then◌else◌,
}
use sovereign_gateway.Core.Json.{Value, null, number, string, array, object, nil, end, field}
use sovereign_gateway.Base.Text.{show}
use sovereign_gateway.Wire.Response.{
  StopReason, Usage, no_usage, merge_usage, StreamEvent, message_start, tool_use_start, text_delta,
  usage_delta, thinking_delta, done, tool_use_delta,
}
use sovereign_gateway.Wire.Aggregate.{Json}
use sovereign_gateway.Wire.Anthropic.Decode.{stop_reason_str}

-- A frame of a stream: its event and its data.
abbrev pub Frame : Type 0
Frame = String × Value

pub data BlockKind : Type 0 where
  text_block thinking_block tool_block : BlockKind

unfoldable pub same_kind : BlockKind → BlockKind → Bool
same_kind text_block text_block = true
same_kind thinking_block thinking_block = true
same_kind tool_block tool_block = true
same_kind text_block thinking_block = false
same_kind text_block tool_block = false
same_kind thinking_block text_block = false
same_kind thinking_block tool_block = false
same_kind tool_block text_block = false
same_kind tool_block thinking_block = false

pub record EmitState : Type 0 where
  pub started : Bool
  pub model : String
  pub next_index : ℕ
  pub open_block : Option BlockKind
  pub usage : Usage

abbrev pub new_emit_state : EmitState
new_emit_state = record {
  started = false;
  model = "";
  next_index = 0;
  open_block = none;
  usage = no_usage;
}

-- What a step writes, besides the state.
abbrev pub Written : Type 0
Written = EmitState × List Frame

unfoldable pub start_frame : String → Frame
start_frame model = (
  "message_start",
  object (
      field "message"
        (object (
          field "content" (array nil) (
            field "id" (string "msg_stream") (
              field "model" (string model) (
                field "role" (string "assistant") (
                  field "stop_reason" null (
                    field "stop_sequence" null (
                      field "type" (string "message") (
                        field "usage"
                          (object (
                            field "input_tokens" (number "0")
                              (field "output_tokens" (number "0") end)))
                          end)))))))))
        (field "type" (string "message_start") end)),
)

unfoldable pub block_frame : ℕ → Value → Frame
unfolding show
block_frame index block = (
  "content_block_start",
  object (
      field "content_block" block
        (field "index" (number (show index)) (field "type" (string "content_block_start") end))),
)

unfoldable pub delta_frame : ℕ → Value → Frame
unfolding show
delta_frame index delta = (
  "content_block_delta",
  object (
      field "delta" delta
        (field "index" (number (show index)) (field "type" (string "content_block_delta") end))),
)

unfoldable pub stop_frame : ℕ → Frame
unfolding show
stop_frame index = (
  "content_block_stop",
  object (field "index" (number (show index)) (field "type" (string "content_block_stop") end)),
)

unfoldable pub end_frames : StopReason → ℕ → List Frame
unfolding stop_reason_str show
end_frames reason output_tokens =
    (
      "message_delta",
      object (
          field "delta"
            (object (
              field "stop_reason" (string (stop_reason_str reason))
                (field "stop_sequence" null end)))
            (field "type" (string "message_delta") (
              field "usage" (object (field "output_tokens" (number (show output_tokens)) end))
                end))),
    )
    ∷ ("message_stop", object (field "type" (string "message_stop") end))
    ∷ []

unfoldable pub emit_message_start : EmitState → Written
unfolding start_frame
emit_message_start st = (record st { started = true }, start_frame st.model ∷ [])

unfoldable pub ensure_started : EmitState → Written
unfolding emit_message_start
ensure_started st = if st.started then (st, []) else emit_message_start st

unfoldable pub close_open : EmitState → Written
unfolding stop_frame
close_open st = elim st.open_block [
  | none ↦ (st, [])
  | some kind ↦ (
    record st { open_block = none; next_index = st.next_index + 1 },
    stop_frame st.next_index ∷ [],
  )
]

unfoldable pub empty_block : BlockKind → Value
empty_block text_block = object (field "text" (string "") (field "type" (string "text") end))
empty_block thinking_block =
    object (field "thinking" (string "") (field "type" (string "thinking") end))
empty_block tool_block = object (
    field "id" (string "") (
      field "input" (object end) (field "name" (string "") (field "type" (string "tool_use") end))))

abbrev pub is_open : Option BlockKind → BlockKind → Bool
is_open none kind = false
is_open (some other_kind) kind = same_kind other_kind kind

-- Closes the open block and opens one.
unfoldable pub open_block_frames : EmitState → BlockKind → Value → Written
unfolding close_open block_frame
open_block_frames st kind block =
    let (st1, closed) = close_open st in
    (record st1 { open_block = some kind }, closed ++ block_frame st1.next_index block ∷ [])

unfoldable pub ensure_block : EmitState → BlockKind → Written
unfolding ensure_started same_kind open_block_frames empty_block
ensure_block st kind =
    let (st1, start) = ensure_started st in
    let (st2, opened_frames) = open_block_frames st1 kind (empty_block kind) in
    if is_open st1.open_block kind then (st1, start) else (st2, start ++ opened_frames)

-- A delta of a block of a kind, which is opened first where it is not open.
unfoldable pub write_delta : EmitState → BlockKind → Value → Written
unfolding ensure_block delta_frame
write_delta st kind delta =
    let (st1, frames) = ensure_block st kind in
    (st1, frames ++ delta_frame st1.next_index delta ∷ [])

unfoldable pub encode_event : StreamEvent → EmitState → Written
unfolding emit_message_start write_delta ensure_started open_block_frames merge_usage close_open
    end_frames
encode_event (message_start m) st = emit_message_start (record st { model = m })
encode_event (text_delta t) st =
    write_delta st text_block
      (object (field "text" (string t) (field "type" (string "text_delta") end)))
encode_event (thinking_delta t) st =
    write_delta st thinking_block
      (object (field "thinking" (string t) (field "type" (string "thinking_delta") end)))
encode_event (tool_use_start id name) st =
    let (st1, start) = ensure_started st in
    let (st2, opened_frames) = open_block_frames st1 tool_block (
      object (
        field "id" (string id) (
          field "input" (object end)
            (field "name" (string name) (field "type" (string "tool_use") end))))) in
    (st2, start ++ opened_frames)
encode_event (tool_use_delta partial) st =
    write_delta st tool_block (
      object (field "partial_json" (string partial) (field "type" (string "input_json_delta") end)))
encode_event (usage_delta u) st = (record st { usage = merge_usage st.usage u }, [])
encode_event (done reason) st =
    let (st1, start) = ensure_started st in
    let (st2, closed) = close_open st1 in
    (st2, start ++ closed ++ end_frames reason st2.usage.output_tokens)

unfoldable pub encode_events : List StreamEvent → EmitState → Written
unfolding encode_event
encode_events [] st = (st, [])
encode_events (e ∷ es) st =
    let (st1, frames) = encode_event e st in
    let (st2, more) = encode_events es st1 in (st2, frames ++ more)

-- `write_event`.
unfoldable pub frame_text : Json → Frame → String
frame_text json (name, data_) = String.◌++◌ "event: " (
    String.◌++◌ name
      (String.◌++◌ "\n" (String.◌++◌ "data: " (String.◌++◌ (json.to_string data_) "\n\n"))))

unfoldable pub frames_text : Json → List Frame → String
unfolding frame_text
frames_text json [] = ""
frames_text json (f ∷ frames) = String.◌++◌ (frame_text json f) (frames_text json frames)

unfoldable pub encode_sse : Json → List StreamEvent → EmitState → EmitState × String
unfolding encode_events frames_text
encode_sse json events st =
    let (st1, frames) = encode_events events st in (st1, frames_text json frames)
