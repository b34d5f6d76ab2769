-- ===== src/Wire/Anthropic/Relay/Positions.antt =====
-- crates/yb-wire/src/anthropic.rs: the blocks that the frames of a stream open and close.
use sovereign_gateway.Base.{
  ℕ, ◌+◌, String, ◌≡◌, refl, ◌∙◌, Bool, true, false, not, ◌||◌, Option, none, some, List, [], ◌∷◌,
  ◌++◌, ◌==◌, All, All-append, if◌then◌else◌, arith,
}
use sovereign_gateway.Base.Text.{show}
use sovereign_gateway.Core.Json.{Value, null, bool, number, string, array, object}
use sovereign_gateway.Wire.Common.{get, opt_str}
use sovereign_gateway.Wire.Anthropic.Encode.{
  Frame, EmitState, BlockKind, text_block, thinking_block, tool_block, is_open, same_kind,
}
use sovereign_gateway.Wire.Anthropic.Relay.Lines.{is_line}

-- Where a reader of the stream stands: whether the message has started, the index of the block that is
-- open or comes next, and the kind of the open block.
pub record Position : Type 0 where
  pub started : Bool
  pub index : ℕ
  pub open_block : Option BlockKind

abbrev pub position : EmitState → Position
position st = record { started = st.started; index = st.next_index; open_block = st.open_block }

unfoldable pub kind_of_block : String → Option BlockKind
kind_of_block t =
    if t == "text"
    then some text_block
    else if t == "thinking"
    then some thinking_block
    else if t == "tool_use"
    then some tool_block
    else none

unfoldable pub kind_of_delta : String → Option BlockKind
kind_of_delta t =
    if t == "text_delta"
    then some text_block
    else if t == "thinking_delta"
    then some thinking_block
    else if t == "input_json_delta"
    then some tool_block
    else none

-- The kind that the member of a frame's data has by its `type`.
unfoldable pub kind_in : (String → Option BlockKind) → String → Value → Option BlockKind
unfolding get opt_str
kind_in kind_of key v = elim (get v key) [
  | none ↦ none
  | some member ↦ elim (opt_str member "type") [ none ↦ none | some t ↦ kind_of t ]
]

unfoldable pub is_number : Option Value → String → Bool
is_number (some (number n)) t = n == t
is_number (some null) t = false
is_number (some (bool b)) t = false
is_number (some (string s)) t = false
is_number (some (array items)) t = false
is_number (some (object fields)) t = false
is_number none t = false

unfoldable pub is_at : Value → ℕ → Bool
unfolding get is_number show
is_at v index = is_number (get v "index") (show index)

-- A block opens where none is open.
unfoldable pub start_block : Option BlockKind → Position → Option Position
start_block (some kind) p = elim p.open_block [
  | none ↦ some (record p { open_block = some kind })
  | some other ↦ none
]
start_block none p = none

-- A delta is one of the open block.
unfoldable pub extend_block : Option BlockKind → Position → Option Position
unfolding same_kind
extend_block (some kind) p = if is_open p.open_block kind then some p else none
extend_block none p = none

unfoldable pub stop_block : Position → Option Position
stop_block p = elim p.open_block [
  | none ↦ none
  | some kind ↦ some (record p { open_block = none; index = p.index + 1 })
]

unfoldable pub between_blocks : Position → Option Position
between_blocks p = elim p.open_block [ none ↦ some p | some kind ↦ none ]

-- A frame of a block.
unfoldable pub step_block : String → Value → Position → Option Position
unfolding kind_in kind_of_block kind_of_delta start_block extend_block stop_block
step_block name v p =
    if name == "content_block_start"
    then start_block (kind_in kind_of_block "content_block" v) p
    else if name == "content_block_delta"
    then extend_block (kind_in kind_of_delta "delta" v) p
    else if name == "content_block_stop"
    then stop_block p
    else none

-- What a frame does to the position, if it may come there: a block opens, with the next index, where
-- none is open, a delta has the kind and the index of the open block, a block that closes has its index,
-- and the message ends where none is open, all of it after the message has started.
unfoldable pub step_frame : Frame → Position → Option Position
unfolding is_at step_block between_blocks
step_frame (name, v) p =
    if name == "message_start"
    then some (record p { started = true })
    else if not p.started
    then none
    else if name == "message_delta" || name == "message_stop"
    then between_blocks p
    else if is_at v p.index
    then step_block name v p
    else none

unfoldable pub run_frames : List Frame → Position → Option Position
unfolding step_frame
run_frames [] p = some p
run_frames (f ∷ frames) p = elim (step_frame f p) [ none ↦ none | some q ↦ run_frames frames q ]

abbrev pub AreNamed : List Frame → Type 0
AreNamed frames = All (λ (name, v). is_line name ≡ true) frames

-- Frames that lead from a position to another, with names that are lines.
abbrev pub IsFramed : Position → List Frame → Position → Type 0
IsFramed p frames q = (run_frames frames p ≡ some q) × AreNamed frames

pub run_frames-append :
    (fs gs : List Frame) (p q : Position)
    → run_frames fs p ≡ some q
    → run_frames (fs ++ gs) p ≡ run_frames gs q
unfolding run_frames
run_frames-append [] gs p q h = cc
run_frames-append (f ∷ fs) gs p q h =
    by_step (step_frame f p) (λ p1. run_frames-append fs gs p1 q) h
  where
    by_step :
        (o : Option Position)
        → ((p1 : Position) → run_frames fs p1 ≡ some q → run_frames (fs ++ gs) p1 ≡ run_frames gs q)
        → elim o as (λ _. Option Position) [ none ↦ none | some p1 ↦ run_frames fs p1 ] ≡ some q
        → elim o as (λ _. Option Position) [ none ↦ none | some p1 ↦ run_frames (fs ++ gs) p1 ]
          ≡ run_frames gs q
    by_step none more e = ground arith
    by_step (some p1) more e = more p1 e

pub append-IsFramed :
    (fs gs : List Frame) (p q r : Position)
    → IsFramed p fs q
    → IsFramed q gs r
    → IsFramed p (fs ++ gs) r
append-IsFramed fs gs p q r (h, hn) (k, kn) =
    (run_frames-append fs gs p q h ∙ k, All-append (λ (name, v). is_line name ≡ true) fs gs hn kn)

pub run_frames-one :
    (f : Frame) (p q : Position) → step_frame f p ≡ some q → run_frames (f ∷ []) p ≡ some q
unfolding run_frames
run_frames-one f p q e = rw (run_frames, e) refl

pub step_frame-block :
    (name : String) (v : Value) (p : Position)
    → (name == "message_start") ≡ false
    → (name == "message_delta" || name == "message_stop") ≡ false
    → p.started ≡ true
    → is_at v p.index ≡ true
    → step_frame (name, v) p ≡ step_block name v p
unfolding step_frame
step_frame-block name v p a b h k = rw (step_frame, a, b, h, k) refl

pub step_frame-end :
    (name : String) (v : Value) (p : Position)
    → (name == "message_start") ≡ false
    → (name == "message_delta" || name == "message_stop") ≡ true
    → p.started ≡ true
    → p.open_block ≡ none
    → step_frame (name, v) p ≡ some p
unfolding step_frame between_blocks
step_frame-end name v p a b h o = simp (step_frame, a, b, h) (between p.open_block o)
  where
    between :
        (o : Option BlockKind)
        → o ≡ none
        → elim o as (λ _. Option Position) [ none ↦ some p | some kind ↦ none ] ≡ some p
    between none e = refl
    between (some kind) e = ground arith
