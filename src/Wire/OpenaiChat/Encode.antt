-- ===== src/Wire/OpenaiChat/Encode.antt =====
-- crates/yb-wire/src/openai_chat.rs, `encode_sse`: events as the chunks of a chat completion's stream,
-- with the usage and the end that a client waits for. The writer of JSON is a parameter.
use sovereign_gateway.Base.{
  ℕ, suc, ◌+◌, ◌%◌, String, Bool, true, false, ◌||◌, Option, none, some, List, [], ◌∷◌, ◌++◌, ltb,
  if◌then◌else◌, ◌^◌,
}
use sovereign_gateway.Core.Json.{
  Value, null, number, string, array, object, Items, nil, cons, Fields, end, field,
}
use sovereign_gateway.Wire.Aggregate.{Json, push_str}
use sovereign_gateway.Wire.Response.{
  StopReason, StreamEvent, Usage, merge_usage, end_turn, tool_use_start, thinking_delta,
  usage_delta, done, message_start, no_usage, other, max_tokens, tool_use_delta, text_delta,
  stop_sequence, tool_use,
}
use sovereign_gateway.Base.Int.{ℤ, negsuc, ◌+ℤ◌, pos, pos_part}
use sovereign_gateway.Base.Text.{show}

-- What is written: a chunk, or the mark that ends a stream.
pub data Chunk : Type 0 where
  chunk : Value → Chunk
  end_mark : Chunk

unfoldable pub stop_to_finish : StopReason → String
stop_to_finish end_turn = "stop"
stop_to_finish stop_sequence = "stop"
stop_to_finish max_tokens = "length"
stop_to_finish tool_use = "tool_calls"
stop_to_finish (other o) = o

pub record EmitState : Type 0 where
  pub started : Bool
  pub model : String
  pub tool_index : ℤ
  pub usage : Option Usage
  pub include_usage : Bool
  pub pending_done : Bool

abbrev pub new_emit_state : EmitState
new_emit_state = record {
  started = false;
  model = "";
  tool_index = negsuc 0;
  usage = none;
  include_usage = false;
  pending_done = false;
}

abbrev int : ℕ → Value
int n = number (show n)

-- The fields of `emit_usage` that are there on a condition.
unfoldable pub emit_usage : Usage → Value
unfolding show
emit_usage u =
    let rest = field "prompt_tokens" (int u.input_tokens) (
      let counted = field "total_tokens" (int ((u.input_tokens + u.output_tokens) % 2 ^ 32)) end in
      if ltb 0 u.cache_read_tokens || ltb 0 u.cache_write_tokens
      then field "prompt_tokens_details"
          (object (
            field "cache_write_tokens" (int u.cache_write_tokens)
              (field "cached_tokens" (int u.cache_read_tokens) end)))
          counted
      else counted) in
    let completion = field "completion_tokens" (int u.output_tokens) in
    object (
      completion (
        if ltb 0 u.reasoning_tokens
        then field "completion_tokens_details"
            (object (field "reasoning_tokens" (int u.reasoning_tokens) end)) rest
        else rest))

-- The envelope that all chunks have.
unfoldable pub envelope : EmitState → Items → Fields → Value
envelope st choices rest = object (
    field "choices" (array choices) (
      field "created" (number "0") (
        field "id" (string "chatcmpl_stream") (
          field "model" (string st.model) (field "object" (string "chat.completion.chunk") rest)))))

unfoldable pub usage_chunk : EmitState → Usage → Chunk
unfolding envelope emit_usage
usage_chunk st u = chunk (envelope st nil (field "usage" (emit_usage u) end))

unfoldable pub choice_chunk : EmitState → Value → Value → Chunk
unfolding envelope
choice_chunk st delta finish_reason = chunk (
    envelope st
      (cons
        (object (
          field "delta" delta
            (field "finish_reason" finish_reason (field "index" (number "0") end))))
        nil)
      end)

abbrev pub Written : Type 0
Written = EmitState × List Chunk

abbrev role_delta : Value
role_delta = object (field "role" (string "assistant") end)

unfoldable pub ensure_started : EmitState → Written
unfolding choice_chunk
ensure_started st =
    if st.started
    then (st, [])
    else let st1 = record st { started = true } in (st1, choice_chunk st1 role_delta null ∷ [])

-- A chunk of the one choice, after the start.
unfoldable pub write_chunk : EmitState → Value → Value → Written
unfolding ensure_started choice_chunk
write_chunk st delta finish_reason =
    let (st1, start) = ensure_started st in
    (st1, start ++ choice_chunk st1 delta finish_reason ∷ [])

-- An index of a tool call, as `i64` is written.
unfoldable pub index_value : ℤ → Value
unfolding show
index_value (pos n) = number (show n)
index_value (negsuc n) = number (push_str "-" (show (suc n)))

unfoldable pub usage_chunks : EmitState → Option Usage → List Chunk
unfolding usage_chunk
usage_chunks st none = []
usage_chunks st (some u) = usage_chunk st u ∷ []

unfoldable pub merge_in : Option Usage → Usage → Usage
unfolding merge_usage
merge_in none v = merge_usage no_usage v
merge_in (some u) v = merge_usage u v

-- After the chunk with the finish reason: the usage, if it is wanted, and the mark.
unfoldable pub write_end : EmitState → Written
unfolding usage_chunk
write_end st = elim st.include_usage [
  | false ↦ (st, end_mark ∷ [])
  | true ↦ elim st.usage [
    | some u ↦ (st, usage_chunk st u ∷ end_mark ∷ [])
    | none ↦ (record st { pending_done = true }, [])
  ]
]

unfoldable pub relay_usage : EmitState → Written
unfolding usage_chunks
relay_usage st =
    if st.pending_done
    then (record st { pending_done = false }, usage_chunks st st.usage ++ end_mark ∷ [])
    else (st, [])

unfoldable pub encode_event : StreamEvent → EmitState → Written
unfolding choice_chunk write_chunk ensure_started index_value relay_usage merge_in write_end
    stop_to_finish ◌+ℤ◌
encode_event (message_start m) st =
    let st1 = record st { model = m; started = true } in
    (st1, choice_chunk st1 role_delta null ∷ [])
encode_event (text_delta t) st = write_chunk st (object (field "content" (string t) end)) null
encode_event (thinking_delta t) st =
    write_chunk st (object (field "reasoning_content" (string t) end)) null
encode_event (tool_use_start id name) st =
    let (st1, start) = ensure_started st in
    let st2 = record st1 { tool_index = st1.tool_index +ℤ pos 1 } in
    let call = object (
      field "function" (object (field "arguments" (string "") (field "name" (string name) end))) (
        field "id" (string id)
          (field "index" (index_value st2.tool_index) (field "type" (string "function") end)))) in
    (
      st2,
      start ++ choice_chunk st2 (object (field "tool_calls" (array (cons call nil)) end)) null ∷ [],
    )
encode_event (tool_use_delta partial) st =
    let call = object (
      field "function" (object (field "arguments" (string partial) end))
        (field "index" (index_value (pos (pos_part st.tool_index))) end)) in
    write_chunk st (object (field "tool_calls" (array (cons call nil)) end)) null
encode_event (usage_delta u) st = relay_usage (record st { usage = some (merge_in st.usage u) })
encode_event (done reason) st =
    let (st1, chunks) = write_chunk st (object end) (string (stop_to_finish reason)) in
    let (st2, ending) = write_end st1 in (st2, chunks ++ ending)

unfoldable pub encode_events : List StreamEvent → EmitState → Written
unfolding encode_event
encode_events [] st = (st, [])
encode_events (e ∷ es) st =
    let (st1, chunks) = encode_event e st in
    let (st2, more) = encode_events es st1 in (st2, chunks ++ more)

-- `EmitState::finish`: what is still owed where the upstream hangs up.
unfoldable pub finish : EmitState → Written
unfolding usage_chunks
finish st =
    if st.pending_done
    then (
      record st { pending_done = false },
      usage_chunks (record st { pending_done = false }) st.usage ++ end_mark ∷ [],
    )
    else (st, [])

unfoldable pub chunk_text : Json → Chunk → String
chunk_text json (chunk v) = push_str "data: " (push_str (json.to_string v) "\n\n")
chunk_text json end_mark = "data: [DONE]\n\n"

unfoldable pub chunks_text : Json → List Chunk → String
unfolding chunk_text
chunks_text json [] = ""
chunks_text json (c ∷ chunks) = push_str (chunk_text json c) (chunks_text json chunks)

unfoldable pub encode_sse : Json → List StreamEvent → EmitState → EmitState × String
unfolding encode_events chunks_text
encode_sse json events st =
    let (st1, chunks) = encode_events events st in (st1, chunks_text json chunks)
