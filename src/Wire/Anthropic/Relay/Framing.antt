-- ===== src/Wire/Anthropic/Relay/Framing.antt =====
-- crates/yb-wire/src/anthropic.rs: what the encoder writes opens and closes blocks in order.
use sovereign_gateway.Base.{
  ℕ, ◌+◌, ◌≡◌, refl, ap, ◌∙◌, inl, inr, Bool, true, false, Option, none, some, List, [], ◌∷◌, ◌++◌,
  Bool-cases, eq_refl, if◌then◌else◌,
}
use sovereign_gateway.Wire.Response.{
  StreamEvent, text_delta, done, thinking_delta, tool_use_delta, tool_use_start, message_start,
  usage_delta, StopReason,
}
use sovereign_gateway.Base.Text.{show}
use sovereign_gateway.Core.Json.{Value, null, number, string, object, field, end}
use sovereign_gateway.Wire.Common.{get, opt_str}
use sovereign_gateway.Wire.Anthropic.Encode.{
  Frame, EmitState, BlockKind, text_block, thinking_block, tool_block, Written, start_frame,
  block_frame, delta_frame, stop_frame, end_frames, emit_message_start, ensure_started, close_open,
  empty_block, is_open, same_kind, open_block_frames, ensure_block, write_delta, encode_event,
  encode_events,
}
use sovereign_gateway.Wire.Anthropic.Decode.{stop_reason_str}
use sovereign_gateway.Wire.Anthropic.Relay.Lines.{is_line}
use sovereign_gateway.Wire.Anthropic.Relay.Positions.{
  Position, position, kind_of_block, kind_of_delta, kind_in, is_number, is_at, start_block,
  extend_block, stop_block, between_blocks, step_block, step_frame, run_frames, IsFramed,
  run_frames-append, append-IsFramed, run_frames-one, step_frame-block, step_frame-end,
}

-- Where the message has started, frames that lead to a position where it has too.
abbrev IsWritten : EmitState → List Frame → EmitState → Type 0
IsWritten st frames st1 = IsFramed (position st) frames (position st1) × (st1.started ≡ true)

append-IsWritten :
    (fs gs : List Frame) (a b c : EmitState)
    → IsWritten a fs b
    → IsWritten b gs c
    → IsWritten a (fs ++ gs) c
append-IsWritten fs gs a b c (h, s) (k, t) =
    (append-IsFramed fs gs (position a) (position b) (position c) h k, t)

nothing-IsWritten : (st : EmitState) → st.started ≡ true → IsWritten st [] st
unfolding run_frames
nothing-IsWritten st h = ((refl, tt), h)

start-IsWritten :
    (st : EmitState) → IsWritten st (emit_message_start st).1 (emit_message_start st).0
unfolding emit_message_start start_frame run_frames step_frame is_line
start-IsWritten st = ((refl, (refl, tt)), refl)

ensure_started-IsWritten :
    (st : EmitState) → IsWritten st (ensure_started st).1 (ensure_started st).0
unfolding ensure_started
ensure_started-IsWritten st = by_started st.started refl
  where
    by_started :
        (b : Bool)
        → st.started ≡ b
        → IsWritten st
            (if b then (st, []) else emit_message_start st).1
            (if b then (st, []) else emit_message_start st).0
    by_started true h = nothing-IsWritten st h
    by_started false h = start-IsWritten st

is_at-stop : (index : ℕ) → is_at (stop_frame index).1 index ≡ true
unfolding is_at is_number get stop_frame
is_at-stop index = eq_refl (show index)

is_at-block : (index : ℕ) (block : Value) → is_at (block_frame index block).1 index ≡ true
unfolding is_at is_number get block_frame
is_at-block index block = eq_refl (show index)

is_at-delta : (index : ℕ) (delta : Value) → is_at (delta_frame index delta).1 index ≡ true
unfolding is_at is_number get delta_frame
is_at-delta index delta = eq_refl (show index)

close_open-IsWritten :
    (st : EmitState)
    → st.started ≡ true
    → IsWritten st (close_open st).1 (close_open st).0 × ((close_open st).0.open_block ≡ none)
unfolding close_open stop_frame step_block stop_block is_line
close_open-IsWritten st h = closed st.open_block refl
  where
    Closes : EmitState → Written → Type 0
    Closes s (s1, frames) = IsWritten s frames s1 × (s1.open_block ≡ none)

    closed :
        (o : Option BlockKind)
        → st.open_block ≡ o
        → Closes st (elim o as (λ _. Written) [
          | none ↦ (st, [])
          | some kind ↦ (
            record st { open_block = none; next_index = st.next_index + 1 },
            stop_frame st.next_index ∷ [],
          )
        ])
    closed none e = (nothing-IsWritten st h, e)
    closed (some kind) e = (
      (
        (
          run_frames-one (stop_frame st.next_index) (position st) _ (
              step_frame-block _ _ (position st) refl refl h (is_at-stop st.next_index)
              ∙ rw (stop_block, e) refl),
          (refl, tt),
        ),
        h,
      ),
      refl,
    )

-- A block's value of a kind.
abbrev IsBlock : BlockKind → Value → Type 0
IsBlock kind block =
    elim (opt_str block "type") as (λ _. Option BlockKind) [
      | none ↦ none
      | some t ↦ kind_of_block t
    ]
    ≡ some kind

block-IsWritten :
    (st : EmitState) (kind : BlockKind) (block : Value)
    → st.started ≡ true
    → st.open_block ≡ none
    → IsBlock kind block
    → IsWritten st (block_frame st.next_index block ∷ []) (record st { open_block = some kind })
unfolding block_frame step_block kind_in get start_block is_line
block-IsWritten st kind block h o k = (
  (
    run_frames-one (block_frame st.next_index block) (position st) _ (
        step_frame-block _ _ (position st) refl refl h (is_at-block st.next_index block)
        ∙ ap (λ found. start_block found (position st)) k
        ∙ rw (start_block, o) refl),
    (refl, tt),
  ),
  h,
)

open_block-IsWritten :
    (st : EmitState) (kind : BlockKind) (block : Value)
    → st.started ≡ true
    → IsBlock kind block
    → IsWritten st (open_block_frames st kind block).1 (open_block_frames st kind block).0
unfolding open_block_frames
open_block-IsWritten st kind block h k =
    let (closed, o) = close_open-IsWritten st h in
    let st1 = (close_open st).0 in
    append-IsWritten (close_open st).1 (block_frame st1.next_index block ∷ []) st st1
      (record st1 { open_block = some kind }) closed (block-IsWritten st1 kind block closed.1 o k)

empty_block-IsBlock : (kind : BlockKind) → IsBlock kind (empty_block kind)
unfolding empty_block opt_str get kind_of_block
empty_block-IsBlock text_block = refl
empty_block-IsBlock thinking_block = refl
empty_block-IsBlock tool_block = refl

same_kind_refl : (kind : BlockKind) → same_kind kind kind ≡ true
unfolding same_kind
same_kind_refl text_block = refl
same_kind_refl thinking_block = refl
same_kind_refl tool_block = refl

-- Frames after which a block of a kind is open.
abbrev Opens : EmitState → BlockKind → Written → Type 0
Opens st kind (st1, frames) = IsWritten st frames st1 × (is_open st1.open_block kind ≡ true)

ensure_block-IsWritten : (st : EmitState) (kind : BlockKind) → Opens st kind (ensure_block st kind)
unfolding ensure_block open_block_frames
ensure_block-IsWritten st kind =
    let (st1, start) = ensure_started st in
    let started = ensure_started-IsWritten st in
    elim (Bool-cases (is_open st1.open_block kind)) [
      | inl q ↦ rw q (started, q)
      | inr q ↦ rw q (
        append-IsWritten start (open_block_frames st1 kind (empty_block kind)).1 st st1
            (open_block_frames st1 kind (empty_block kind)).0 started
            (open_block-IsWritten st1 kind (empty_block kind) started.1 (empty_block-IsBlock kind)),
        same_kind_refl kind,
      )
    ]

-- A delta's value of a kind.
abbrev IsDelta : BlockKind → Value → Type 0
IsDelta kind delta =
    elim (opt_str delta "type") as (λ _. Option BlockKind) [
      | none ↦ none
      | some t ↦ kind_of_delta t
    ]
    ≡ some kind

delta-IsWritten :
    (st : EmitState) (kind : BlockKind) (delta : Value)
    → st.started ≡ true
    → is_open st.open_block kind ≡ true
    → IsDelta kind delta
    → IsWritten st (delta_frame st.next_index delta ∷ []) st
unfolding delta_frame step_block kind_in get extend_block is_line
delta-IsWritten st kind delta h o k = (
  (
    run_frames-one (delta_frame st.next_index delta) (position st) _ (
        step_frame-block _ _ (position st) refl refl h (is_at-delta st.next_index delta)
        ∙ ap (λ found. extend_block found (position st)) k
        ∙ rw (extend_block, o) refl),
    (refl, tt),
  ),
  h,
)

write_delta-IsWritten :
    (st : EmitState) (kind : BlockKind) (delta : Value)
    → IsDelta kind delta
    → IsWritten st (write_delta st kind delta).1 (write_delta st kind delta).0
unfolding write_delta
write_delta-IsWritten st kind delta k =
    let (st1, frames) = ensure_block st kind in
    let (written, o) = ensure_block-IsWritten st kind in
    append-IsWritten frames (delta_frame st1.next_index delta ∷ []) st st1 st1 written
      (delta-IsWritten st1 kind delta written.1 o k)

run_frames-end :
    (v w : Value) (p : Position)
    → p.started ≡ true
    → p.open_block ≡ none
    → run_frames (("message_delta", v) ∷ ("message_stop", w) ∷ []) p ≡ some p
run_frames-end v w p h o =
    let delta = step_frame-end "message_delta" v p refl refl h o in
    run_frames-append (("message_delta", v) ∷ []) (("message_stop", w) ∷ []) p p
      (run_frames-one ("message_delta", v) p p delta)
    ∙ run_frames-one ("message_stop", w) p p (step_frame-end "message_stop" w p refl refl h o)

end-IsWritten :
    (st : EmitState) (reason : StopReason) (n : ℕ)
    → st.started ≡ true
    → st.open_block ≡ none
    → IsWritten st (end_frames reason n) st
unfolding end_frames run_frames step_frame between_blocks is_line
end-IsWritten st reason n h o =
    let delta : Value = object (
      field "delta"
        (object
          (field "stop_reason" (string (stop_reason_str reason)) (field "stop_sequence" null end)))
        (field "type" (string "message_delta")
          (field "usage" (object (field "output_tokens" (number (show n)) end)) end))) in
    let stop : Value = object (field "type" (string "message_stop") end) in
    ((run_frames-end delta stop (position st) h o, (refl, (refl, tt))), h)

encode_event-IsFramed :
    (e : StreamEvent) (st : EmitState)
    → IsFramed (position st) (encode_event e st).1 (position (encode_event e st).0)
unfolding encode_event run_frames opt_str get kind_of_block kind_of_delta
encode_event-IsFramed (message_start m) st = (start-IsWritten (record st { model = m })).0
encode_event-IsFramed (text_delta t) st = (write_delta-IsWritten st text_block _ refl).0
encode_event-IsFramed (thinking_delta t) st = (write_delta-IsWritten st thinking_block _ refl).0
encode_event-IsFramed (tool_use_start id name) st =
    let (st1, start) = ensure_started st in
    let started = ensure_started-IsWritten st in
    let block : Value = object (
      field "id" (string id) (
        field "input" (object end)
          (field "name" (string name) (field "type" (string "tool_use") end)))) in
    (append-IsWritten start (open_block_frames st1 tool_block block).1 st st1
      (open_block_frames st1 tool_block block).0 started
      (open_block-IsWritten st1 tool_block block started.1 refl)).0
encode_event-IsFramed (tool_use_delta partial) st = (write_delta-IsWritten st tool_block _ refl).0
encode_event-IsFramed (usage_delta u) st = (refl, tt)
encode_event-IsFramed (done reason) st =
    let (st1, start) = ensure_started st in
    let (st2, closing) = close_open st1 in
    let started = ensure_started-IsWritten st in
    let (closed, o) = close_open-IsWritten st1 started.1 in
    let ended = end-IsWritten st2 reason st2.usage.output_tokens closed.1 o in
    (append-IsWritten (start ++ closing) _ st st2 st2
      (append-IsWritten start closing st st1 st2 started closed) ended).0

-- The frames of events, from the encoder's position to its next.
pub encode_events-IsFramed :
    (events : List StreamEvent) (st : EmitState)
    → IsFramed (position st) (encode_events events st).1 (position (encode_events events st).0)
unfolding encode_events run_frames
encode_events-IsFramed [] st = (refl, tt)
encode_events-IsFramed (e ∷ events) st =
    let (st1, frames) = encode_event e st in
    let (st2, more) = encode_events events st1 in
    append-IsFramed frames more (position st) (position st1) (position st2)
      (encode_event-IsFramed e st) (encode_events-IsFramed events st1)
