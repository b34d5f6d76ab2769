-- ===== src/Wire/Anthropic/Relay/Frames.antt =====
-- crates/yb-wire/src/anthropic.rs: what the frames that are written for events say when they are decoded.
use sovereign_gateway.Base.{
  ℕ, ◌+◌, String, ◌≡◌, refl, sym, ap, ◌∙◌, inl, inr, Bool, true, false, not, Option, none, some,
  List, [], ◌∷◌, ◌++◌, map, ◌==◌, Bool-cases, select, select-append,
}
use sovereign_gateway.Wire.Response.{
  StreamEvent, text_delta, done, thinking_delta, tool_use_delta, tool_use_start, message_start,
  usage_delta, StopReason,
}
use mathlib.Core.List.{append_assoc}
use mathlib.Core.Path.{ap₂, subst}
use sovereign_gateway.Core.Json.{Value, object, field, string, end}
use sovereign_gateway.Wire.Anthropic.Decode.{
  decode_value, SseState, parse_stop_reason, stop_reason_str,
}
use sovereign_gateway.Wire.Anthropic.Encode.{
  Frame, EmitState, BlockKind, text_block, thinking_block, tool_block, Written, start_frame,
  block_frame, delta_frame, stop_frame, end_frames, emit_message_start, ensure_started, close_open,
  empty_block, is_open, open_block_frames, ensure_block, write_delta, encode_event, encode_events,
}

-- The frames, decoded one after the other.
unfoldable pub decode_all : List Frame → SseState → SseState × List StreamEvent
decode_all [] state = (state, [])
decode_all ((name, v) ∷ frames) state =
    let (state1, events) = decode_value v state in
    let (state2, more) = decode_all frames state1 in (state2, events ++ more)

-- The events that say something to the client: deltas, tool calls with a name, and the end.
abbrev pub is_said : StreamEvent → Bool
is_said (text_delta t) = true
is_said (thinking_delta t) = true
is_said (tool_use_delta partial) = true
is_said (tool_use_start id name) = not (name == "")
is_said (done reason) = true
is_said (message_start model) = false
is_said (usage_delta u) = false

-- A stop reason, as it is read where it was written.
abbrev pub canonical_event : StreamEvent → StreamEvent
canonical_event (done reason) = done (parse_stop_reason (some (stop_reason_str reason)))
canonical_event (text_delta t) = text_delta t
canonical_event (thinking_delta t) = thinking_delta t
canonical_event (tool_use_delta partial) = tool_use_delta partial
canonical_event (tool_use_start id name) = tool_use_start id name
canonical_event (message_start model) = message_start model
canonical_event (usage_delta u) = usage_delta u

unfoldable pub said : List StreamEvent → List StreamEvent
unfolding select
said events = select is_said events

said-append : (xs ys : List StreamEvent) → said (xs ++ ys) ≡ said xs ++ said ys
unfolding said
said-append xs ys = select-append is_said xs ys

-- Frames that say some events, in whichever state the decoder is.
unfoldable pub IsSaying : List StreamEvent → List Frame → Type 0
IsSaying events frames = (state : SseState) → said (decode_all frames state).1 ≡ events

start-IsSaying : (model : String) → IsSaying [] (start_frame model ∷ [])
unfolding IsSaying decode_all decode_value start_frame said select
start-IsSaying model state = refl

stop-IsSaying : (index : ℕ) → IsSaying [] (stop_frame index ∷ [])
unfolding IsSaying decode_all decode_value stop_frame said select
stop-IsSaying index state = refl

empty-IsSaying :
    (index : ℕ) (kind : BlockKind) → IsSaying [] (block_frame index (empty_block kind) ∷ [])
unfolding IsSaying decode_all decode_value block_frame empty_block said select
empty-IsSaying index text_block state = refl
empty-IsSaying index thinking_block state = refl
empty-IsSaying index tool_block state = refl

none-IsSaying : IsSaying [] []
unfolding IsSaying decode_all said select
none-IsSaying state = refl

decode_all-append :
    (fs gs : List Frame) (state : SseState)
    → (decode_all (fs ++ gs) state).1
      ≡ (decode_all fs state).1 ++ (decode_all gs (decode_all fs state).0).1
unfolding decode_all
decode_all-append [] gs state = refl
decode_all-append ((name, v) ∷ fs) gs state =
    let (state1, events) = decode_value v state in
    ap (λ l. events ++ l) (decode_all-append fs gs state1)
    ∙ sym (append_assoc events (decode_all fs state1).1 _)

append-IsSaying :
    (xs ys : List StreamEvent) (fs gs : List Frame)
    → IsSaying xs fs
    → IsSaying ys gs
    → IsSaying (xs ++ ys) (fs ++ gs)
unfolding IsSaying
append-IsSaying xs ys fs gs h k state =
    ap said (decode_all-append fs gs state)
    ∙ said-append (decode_all fs state).1 (decode_all gs (decode_all fs state).0).1
    ∙ ap₂ (◌++◌) (h state) (k (decode_all fs state).0)

ensure_started-IsSaying : (st : EmitState) → IsSaying [] (ensure_started st).1
unfolding ensure_started emit_message_start
ensure_started-IsSaying st = elim (Bool-cases st.started) [
  | inl q ↦ rw q none-IsSaying
  | inr q ↦ rw q (start-IsSaying st.model)
]

close_open-IsSaying : (st : EmitState) → IsSaying [] (close_open st).1
unfolding close_open
close_open-IsSaying st = closed st.open_block
  where
    closed :
        (o : Option BlockKind)
        → IsSaying []
            (elim o as (λ _. Written) [
              | none ↦ (st, [])
              | some kind ↦ (
                record st { open_block = none; next_index = st.next_index + 1 },
                stop_frame st.next_index ∷ [],
              )
            ]).1
    closed none = none-IsSaying
    closed (some kind) = stop-IsSaying st.next_index

open_block-IsSaying :
    (st : EmitState) (kind : BlockKind) (block : Value) (xs : List StreamEvent)
    → ((index : ℕ) → IsSaying xs (block_frame index block ∷ []))
    → IsSaying xs (open_block_frames st kind block).1
unfolding open_block_frames
open_block-IsSaying st kind block xs h =
    append-IsSaying [] xs (close_open st).1 (block_frame (close_open st).0.next_index block ∷ [])
      (close_open-IsSaying st) (h (close_open st).0.next_index)

ensure_block-IsSaying : (st : EmitState) (kind : BlockKind) → IsSaying [] (ensure_block st kind).1
unfolding ensure_block
ensure_block-IsSaying st kind =
    let (st1, start) = ensure_started st in
    elim (Bool-cases (is_open st1.open_block kind)) [
      | inl q ↦ rw q (ensure_started-IsSaying st)
      | inr q ↦ rw q (
          append-IsSaying [] [] start (open_block_frames st1 kind (empty_block kind)).1
            (ensure_started-IsSaying st)
            (open_block-IsSaying st1 kind (empty_block kind) []
              (λ index. empty-IsSaying index kind)))
    ]

write_delta-IsSaying :
    (st : EmitState) (kind : BlockKind) (delta : Value) (xs : List StreamEvent)
    → ((index : ℕ) → IsSaying xs (delta_frame index delta ∷ []))
    → IsSaying xs (write_delta st kind delta).1
unfolding write_delta
write_delta-IsSaying st kind delta xs h =
    append-IsSaying [] xs (ensure_block st kind).1
      (delta_frame (ensure_block st kind).0.next_index delta ∷ []) (ensure_block-IsSaying st kind)
      (h (ensure_block st kind).0.next_index)

end-IsSaying :
    (reason : StopReason) (n : ℕ)
    → IsSaying (canonical_event (done reason) ∷ []) (end_frames reason n)
unfolding IsSaying decode_all decode_value end_frames said select
end-IsSaying reason n state = refl

text-IsSaying :
    (t : String) (index : ℕ)
    → IsSaying (text_delta t ∷ []) (
        delta_frame index
          (object (field "text" (string t) (field "type" (string "text_delta") end)))
        ∷ [])
unfolding IsSaying decode_all decode_value delta_frame said select
text-IsSaying t index state = refl

thinking-IsSaying :
    (t : String) (index : ℕ)
    → IsSaying (thinking_delta t ∷ []) (
        delta_frame index
          (object (field "thinking" (string t) (field "type" (string "thinking_delta") end)))
        ∷ [])
unfolding IsSaying decode_all decode_value delta_frame said select
thinking-IsSaying t index state = refl

partial-IsSaying :
    (t : String) (index : ℕ)
    → IsSaying (tool_use_delta t ∷ []) (
        delta_frame index
          (object (field "partial_json" (string t) (field "type" (string "input_json_delta") end)))
        ∷ [])
unfolding IsSaying decode_all decode_value delta_frame said select
partial-IsSaying t index state = refl

tool-IsSaying :
    (id name : String) (index : ℕ)
    → IsSaying (said (tool_use_start id name ∷ [])) (
        block_frame index (
          object (
            field "id" (string id) (
              field "input"
                (object end)
                (field "name" (string name) (field "type" (string "tool_use") end)))))
        ∷ [])
unfolding IsSaying decode_all decode_value block_frame said select
tool-IsSaying id name index state = refl

encode_event-IsSaying :
    (e : StreamEvent) (st : EmitState)
    → IsSaying (said (canonical_event e ∷ [])) (encode_event e st).1
unfolding encode_event said select
encode_event-IsSaying (message_start m) st = start-IsSaying m
encode_event-IsSaying (text_delta t) st =
    write_delta-IsSaying st text_block _ (text_delta t ∷ []) (text-IsSaying t)
encode_event-IsSaying (thinking_delta t) st =
    write_delta-IsSaying st thinking_block _ (thinking_delta t ∷ []) (thinking-IsSaying t)
encode_event-IsSaying (tool_use_start id name) st =
    append-IsSaying [] _ (ensure_started st).1 _ (ensure_started-IsSaying st)
      (open_block-IsSaying (ensure_started st).0 tool_block _ _ (tool-IsSaying id name))
encode_event-IsSaying (tool_use_delta partial) st =
    write_delta-IsSaying st tool_block _ (tool_use_delta partial ∷ []) (partial-IsSaying partial)
encode_event-IsSaying (usage_delta u) st = none-IsSaying
encode_event-IsSaying (done reason) st =
    let st1 = (ensure_started st).0 in
    append-IsSaying [] (canonical_event (done reason) ∷ [])
      ((ensure_started st).1 ++ (close_open st1).1)
      (end_frames reason (close_open st1).0.usage.output_tokens)
      (append-IsSaying [] [] (ensure_started st).1 (close_open st1).1 (ensure_started-IsSaying st)
        (close_open-IsSaying st1))
      (end-IsSaying reason (close_open st1).0.usage.output_tokens)

nothing-IsSaying : IsSaying (said []) []
unfolding said select
nothing-IsSaying = none-IsSaying

pub encode_events-IsSaying :
    (es : List StreamEvent) (st : EmitState)
    → IsSaying (said (map canonical_event es)) (encode_events es st).1
unfolding encode_events
encode_events-IsSaying [] st = nothing-IsSaying
encode_events-IsSaying (e ∷ es) st =
    subst (λ l. IsSaying l (encode_events (e ∷ es) st).1)
      (sym (said-append (canonical_event e ∷ []) (map canonical_event es)))
      (append-IsSaying _ _ (encode_event e st).1 (encode_events es (encode_event e st).0).1
        (encode_event-IsSaying e st) (encode_events-IsSaying es (encode_event e st).0))
