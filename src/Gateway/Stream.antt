-- ===== src/Gateway/Stream.antt =====
-- crates/yb-gateway/src/service.rs, `StreamState` and `translate_stream`: the answer of an upstream that
-- is handed to the client as it comes. The readers and the writers of the wire formats are
-- parameters, the record `Codec`, as is `String::from_utf8_lossy`; an upstream is what its reads give.
pub mod Filings
pub mod Polls
use sovereign_gateway.Base.{
  ℕ, zero, suc, ◌+◌, String, Bool, true, false, not, ◌&&◌, Option, none, some, List, [], ◌∷◌, ◌++◌,
  if◌then◌else◌, length, is_nil, any, or_else, drop,
}
use sovereign_gateway.Gateway.Lines.{split_lines}
use sovereign_gateway.Wire.Response.{
  StreamEvent, Usage, merge_usage, ChatResponse, no_usage, usage_delta, done, message_start,
  text_delta, thinking_delta, tool_use_start, tool_use_delta,
}
use sovereign_gateway.Core.Errors.{Error, Result, ok, err}
use sovereign_gateway.Gateway.Timing.{is_output}
use sovereign_gateway.Base.Text.{contains_text, trim_line_end}
use sovereign_gateway.Core.Formats.{WireFormat, openai_chat, anthropic, openai_responses, gemini}
use sovereign_gateway.Wire.Aggregate.{into_response, Aggregator, push_all, new_aggregator, Json}

-- `Decoder`, `Encoder` and `emit_response` of crates/yb-wire, and the text of bytes.
pub record Codec : Type 1 where
  pub Decoder : Type 0
  pub Encoder : Type 0
  pub decode_line : Decoder → String → Decoder × List StreamEvent
  pub encode : Encoder → List StreamEvent → Encoder × List ℕ
  pub finish : Encoder → List ℕ
  pub emit_response : WireFormat → ChatResponse → Result (List ℕ)
  pub from_utf8_lossy : List ℕ → String
  pub json : Json

-- What a read of the upstream gives: a chunk, with the time since the turn began in milliseconds, an
-- error, or nothing for longer than the idle timeout.
pub data Read : Type 0 where
  arrived : ℕ → List ℕ → Read
  broken : Error → Read
  stalled : Read

unfoldable pub next_or_stall : List Read → Option (Result (ℕ × List ℕ))
next_or_stall [] = none
next_or_stall (arrived at chunk ∷ upstream) = some (ok (at, chunk))
next_or_stall (broken e ∷ upstream) = some (err e)
next_or_stall (stalled ∷ upstream) =
    some (err (Error.upstream "upstream" 504 "stream stalled: no data for 300s"))

-- The arguments of a call of `RecordCtx::finish`, with the time of the first token that its context saw; a body is
-- the response that it is the JSON of.
pub record Filing : Type 0 where
  pub usage : Usage
  pub status : ℕ
  pub is_error : Bool
  pub response_body : Option ChatResponse
  pub response_bytes : ℕ
  pub first_token : Option ℕ

-- `filed` holds the calls of `finish`, and `first_token` is the one of the record's context.
pub record StreamState (c : Codec) : Type 0 where
  pub upstream : List Read
  pub buf : List ℕ
  pub decoder : c.Decoder
  pub encoder : c.Encoder
  pub usage : Usage
  pub agg : Aggregator
  pub response_bytes : ℕ
  pub status : ℕ
  pub request_id : String
  pub first_token : Option ℕ
  pub is_done : Bool
  pub recorded : Bool
  pub surface : WireFormat
  pub filed : List Filing

-- `RecordCtx::saw`: the first token is kept.
unfoldable pub saw : ℕ → List StreamEvent → Option ℕ → Option ℕ
unfolding is_output any
saw at events first = if any is_output events then or_else first (some at) else first

unfoldable pub merge_event : Usage → StreamEvent → Usage
unfolding merge_usage
merge_event u (usage_delta v) = merge_usage u v
merge_event u (message_start model) = u
merge_event u (text_delta t) = u
merge_event u (thinking_delta t) = u
merge_event u (tool_use_start id name) = u
merge_event u (tool_use_delta partial) = u
merge_event u (done reason) = u

unfoldable pub merge_events : Usage → List StreamEvent → Usage
unfolding merge_event
merge_events u [] = u
merge_events u (e ∷ es) = merge_events (merge_event u e) es

unfoldable pub is_end : StreamEvent → Bool
is_end (done reason) = true
is_end (message_start model) = false
is_end (text_delta t) = false
is_end (thinking_delta t) = false
is_end (tool_use_start id name) = false
is_end (tool_use_delta partial) = false
is_end (usage_delta u) = false

-- Whether the bytes that go out carry the end of the answer in the client's dialect.
unfoldable pub ends_stream : Codec → WireFormat → List ℕ → List StreamEvent → Bool
unfolding contains_text is_end any
ends_stream c openai_chat bytes events = contains_text (c.from_utf8_lossy bytes) "data: [DONE]"
ends_stream c anthropic bytes events = contains_text (c.from_utf8_lossy bytes) "message_stop"
ends_stream c openai_responses bytes events =
    contains_text (c.from_utf8_lossy bytes) "response.completed"
ends_stream c gemini bytes events = any is_end events

module _ (c : Codec) where
  unfoldable pub opened :
      List Read → c.Decoder → c.Encoder → WireFormat → ℕ → String → StreamState c
  opened upstream decoder encoder surface status request_id = record {
    upstream = upstream;
    buf = [];
    decoder = decoder;
    encoder = encoder;
    usage = no_usage;
    agg = new_aggregator;
    response_bytes = 0;
    status = status;
    request_id = request_id;
    first_token = none;
    is_done = false;
    recorded = false;
    surface = surface;
    filed = [];
  }

  -- The events of a line that is decoded, and what they do to the state but for the first token.
  unfoldable pub read_line : List ℕ → StreamState c → StreamState c × List StreamEvent
  unfolding trim_line_end merge_events push_all
  read_line line st =
      let (decoder, events) = c.decode_line st.decoder (trim_line_end (c.from_utf8_lossy line)) in
      (
        record st {
          decoder = decoder;
          usage = merge_events st.usage events;
          agg = push_all events st.agg;
        },
        events,
      )

  unfoldable pub read_lines : ℕ → List (List ℕ) → StreamState c → StreamState c × List StreamEvent
  unfolding read_line saw
  read_lines at [] st = (st, [])
  read_lines at (line ∷ lines) st =
      let (st1, events) = read_line line st in
      let (st2, more) =
        read_lines at lines (record st1 { first_token = saw at events st1.first_token }) in
      (st2, events ++ more)

  -- `ir_json`, which takes the aggregator away, and the call of `finish` with it.
  unfoldable pub file : ℕ → Bool → StreamState c → StreamState c
  unfolding into_response
  file status is_error st = record st {
    agg = new_aggregator;
    recorded = true;
    filed =
        st.filed
        ++ record {
          usage = st.usage;
          status = status;
          is_error = is_error;
          response_body = some (into_response c.json st.request_id st.agg);
          response_bytes = st.response_bytes;
          first_token = st.first_token;
        }
          ∷ [];
  }

-- What an iteration of the loop does besides: it goes on, it yields an item, or the stream is over.
pub data Yield : Type 0 where
  continue : Yield
  yielded : Result (List ℕ) → Yield
  ended : Yield

module _ (c : Codec) where
  -- A turn is recorded as complete the moment its end goes out.
  unfoldable pub end_answer : List ℕ → List StreamEvent → StreamState c → StreamState c
  unfolding ends_stream file
  end_answer bytes events st =
      if not st.recorded && ends_stream c st.surface bytes events
      then record (file c st.status false st) { is_done = true }
      else st

  unfoldable pub relay : List StreamEvent → StreamState c → StreamState c × Yield
  unfolding end_answer
  relay events st =
      let (encoder, bytes) = c.encode st.encoder events in
      let st1 = record st { encoder = encoder } in
      let st2 = record st1 { response_bytes = st1.response_bytes + length bytes } in
      if is_nil bytes then (st1, continue) else (end_answer bytes events st2, yielded (ok bytes))

  unfoldable pub receive : ℕ → List ℕ → StreamState c → StreamState c × Yield
  unfolding split_lines read_lines relay
  receive at chunk st =
      let (lines, rest) = split_lines (st.buf ++ chunk) in
      let (st1, events) = read_lines c at lines (record st { buf = rest }) in
      if is_nil events then (st1, continue) else relay events st1

  -- The partial line that is left, if there is one.
  unfoldable pub flush : StreamState c → StreamState c × List StreamEvent
  unfolding read_line
  flush st = if is_nil st.buf then (st, []) else read_line c st.buf (record st { buf = [] })

  unfoldable pub close : StreamState c → StreamState c × Yield
  unfolding flush file
  close st =
      let (st1, events) = flush st in
      let (encoder, body) =
        if is_nil events then (st1.encoder, []) else c.encode st1.encoder events in
      let bytes = body ++ c.finish encoder in
      (
        file c st1.status false (record st1 {
          encoder = encoder;
          is_done = true;
          response_bytes = st1.response_bytes + length bytes;
        }),
        yielded (ok bytes),
      )

  unfoldable pub advance_read : Option (Result (ℕ × List ℕ)) → StreamState c → StreamState c × Yield
  unfolding receive close file
  advance_read (some (ok (at, chunk))) st = receive at chunk st
  advance_read (some (err e)) st =
      (file c st.status true (record st { is_done = true }), yielded (err e))
  advance_read none st = close st

  -- An iteration of the loop.
  unfoldable pub advance : StreamState c → StreamState c × Yield
  unfolding file next_or_stall advance_read
  advance st =
      if st.is_done
      then (if st.recorded then st else file c st.status false st, ended)
      else advance_read (next_or_stall st.upstream) (record st { upstream = drop 1 st.upstream })

  -- `Drop for StreamState`: a stream that the client leaves is filed with the status 499.
  unfoldable pub drop_stream : StreamState c → StreamState c
  unfolding file
  drop_stream st = if st.recorded then st else file c 499 true st

  -- A poll: iterations until one does not go on. The rounds are those that the reads can need.
  unfoldable pub poll_for : ℕ → StreamState c → StreamState c × Yield
  unfolding advance
  poll_for zero st = (st, continue)
  poll_for (suc rounds) st =
      let (st1, y) = advance st in
      elim y [
        | continue ↦ poll_for rounds st1
        | yielded item ↦ (st1, yielded item)
        | ended ↦ (st1, ended)
      ]

  unfoldable pub poll : StreamState c → StreamState c × Yield
  unfolding poll_for
  poll st = poll_for (suc (length st.upstream)) st

  -- A number of iterations, with what they yield, in order.
  unfoldable pub drive : ℕ → StreamState c → StreamState c × List Yield
  unfolding advance
  drive zero st = (st, [])
  drive (suc n) st = let (st1, y) = advance st in let (st2, ys) = drive n st1 in (st2, y ∷ ys)
