-- ===== src/Gateway/Stream/Filings.antt =====
-- crates/yb-gateway/src/service.rs, `translate_stream`: the record of a stream, however it ends.
use sovereign_gateway.Base.{
  ℕ, zero, suc, ◌+◌, ◌≡◌, refl, sym, ap, ◌∙◌, ◌⊎◌, inl, inr, Bool, true, false, not, ◌&&◌, Option,
  none, some, List, [], ◌∷◌, ◌++◌, ◌==◌, if◌then◌else◌, Bool-cases, length, is_nil, drop, String,
}
use sovereign_gateway.Gateway.Stream.{
  Yield, Codec, merge_event, merge_events, StreamState, Filing, read_line, read_lines, file, relay,
  yielded, continue, ended, end_answer, ends_stream, receive, flush, close, advance_read, advance,
  drive, next_or_stall, drop_stream, opened, Read,
}
use sovereign_gateway.Wire.Aggregate.{push, push_all, into_response, Aggregator}
use sovereign_gateway.Wire.Response.{
  StreamEvent, ChatResponse, message_start, text_delta, thinking_delta, tool_use_start,
  tool_use_delta, usage_delta, done,
}
use sovereign_gateway.Core.Errors.{ok, err, Result}
use sovereign_gateway.Base.Text.{trim_line_end}
use sovereign_gateway.Gateway.Lines.{split_lines}
use sovereign_gateway.Core.Formats.{WireFormat}

-- The number of bytes that the client was given, counted from a number of them.
unfoldable pub sent_after : ℕ → Yield → ℕ
sent_after total (yielded (ok bytes)) = total + length bytes
sent_after total (yielded (err e)) = total
sent_after total continue = total
sent_after total ended = total

unfoldable pub sent_bytes : ℕ → List Yield → ℕ
unfolding sent_after
sent_bytes total [] = total
sent_bytes total (y ∷ ys) = sent_bytes (sent_after total y) ys

usage-push : (e : StreamEvent) (a : Aggregator) → (push e a).usage ≡ merge_event a.usage e
unfolding push merge_event
usage-push (message_start m) a = elim (Bool-cases (a.model == "")) [
  | inl q ↦ rw q refl
  | inr q ↦ rw q refl
]
usage-push (text_delta t) a = refl
usage-push (thinking_delta t) a = refl
usage-push (tool_use_start id name) a = refl
usage-push (tool_use_delta partial) a = refl
usage-push (usage_delta u) a = refl
usage-push (done r) a = refl

usage-push_all :
    (es : List StreamEvent) (a : Aggregator) → (push_all es a).usage ≡ merge_events a.usage es
unfolding push_all merge_events
usage-push_all [] a = refl
usage-push_all (e ∷ es) a =
    usage-push_all es (push e a) ∙ ap (λ u. merge_events u es) (usage-push e a)

-- The record that is filed has the usage of the response that it captures.
abbrev pub IsRecord : ℕ → ℕ → Filing → Type 0
IsRecord total status f =
    (f.status ≡ status)
    × (f.response_bytes ≡ total)
    × ((r : ChatResponse) × (f.response_body ≡ some r) × (r.usage ≡ f.usage))

module _ (c : Codec) where
  -- Not recorded yet, with so many bytes sent.
  abbrev pub IsOpen : ℕ → ℕ → StreamState c → Type 0
  IsOpen total status st =
      (st.recorded ≡ false)
      × (st.is_done ≡ false)
      × (st.filed ≡ [])
      × (st.usage ≡ st.agg.usage)
      × (st.response_bytes ≡ total)
      × (st.status ≡ status)

  abbrev pub IsFiled : ℕ → ℕ → StreamState c → Type 0
  IsFiled total status st =
      (f : Filing) × (st.recorded ≡ true)
      × (st.is_done ≡ true)
      × (st.filed ≡ f ∷ [])
      × IsRecord total status f

  abbrev pub IsAccounted : ℕ → ℕ → StreamState c → Type 0
  IsAccounted total status st = IsOpen total status st ⊎ IsFiled total status st

  read_line-IsOpen :
      (total status : ℕ) (line : List ℕ) (st : StreamState c)
      → IsOpen total status st
      → IsOpen total status (read_line c line st).0
  unfolding read_line
  read_line-IsOpen total status line st (r, d, f, u, b, s) =
      let es = (c.decode_line st.decoder (trim_line_end (c.from_utf8_lossy line))).1 in
      (r, d, f, ap (λ v. merge_events v es) u ∙ sym (usage-push_all es st.agg), b, s)

  read_lines-IsOpen :
      (total status at : ℕ) (lines : List (List ℕ)) (st : StreamState c)
      → IsOpen total status st
      → IsOpen total status (read_lines c at lines st).0
  unfolding read_lines
  read_lines-IsOpen total status at [] st h = h
  read_lines-IsOpen total status at (line ∷ lines) st h =
      read_lines-IsOpen total status at lines _ (read_line-IsOpen total status line st h)

  file-filed :
      (total status : ℕ) (is_error : Bool) (st : StreamState c)
      → st.filed ≡ []
      → st.usage ≡ st.agg.usage
      → st.response_bytes ≡ total
      → (f : Filing) × ((file c status is_error st).filed ≡ f ∷ []) × IsRecord total status f
  unfolding file into_response
  file-filed total status is_error st f u b = (
    record {
      usage = st.usage;
      status = status;
      is_error = is_error;
      response_body = some (into_response c.json st.request_id st.agg);
      response_bytes = st.response_bytes;
      first_token = st.first_token;
    },
    rw f refl,
    (refl, b, (into_response c.json st.request_id st.agg, refl, sym u)),
  )

  end_answer-IsAccounted :
      (total status : ℕ) (bytes : List ℕ) (events : List StreamEvent) (st : StreamState c)
      → IsOpen total status st
      → IsAccounted total status (end_answer c bytes events st)
  unfolding end_answer file
  end_answer-IsAccounted total status bytes events st (r, d, f, u, b, s) =
      elim (Bool-cases (not st.recorded && ends_stream c st.surface bytes events)) [
        | inl q ↦
            let (g, same, is) = file-filed total st.status false st f u b in
            rw q (inr (g, refl, refl, same, rw (← s) is))
        | inr q ↦ rw q (inl (r, d, f, u, b, s))
      ]

  relay-IsAccounted :
      (total status : ℕ) (events : List StreamEvent) (st : StreamState c)
      → IsOpen total status st
      → IsAccounted (sent_after total (relay c events st).1) status (relay c events st).0
  unfolding relay sent_after
  relay-IsAccounted total status events st (r, d, f, u, b, s) =
      let bytes = (c.encode st.encoder events).1 in
      elim (Bool-cases (is_nil bytes)) [
        | inl q ↦ rw q (inl (r, d, f, u, b, s))
        | inr q ↦ rw q (
            end_answer-IsAccounted (total + length bytes) status bytes events
              (record st {
                encoder = (c.encode st.encoder events).0;
                response_bytes = st.response_bytes + length bytes;
              })
              (r, d, f, u, ap (λ n. n + length bytes) b, s))
      ]

  receive-IsAccounted :
      (total status at : ℕ) (chunk : List ℕ) (st : StreamState c)
      → IsOpen total status st
      → IsAccounted (sent_after total (receive c at chunk st).1) status (receive c at chunk st).0
  unfolding receive sent_after
  receive-IsAccounted total status at chunk st h =
      let (lines, rest) = split_lines (st.buf ++ chunk) in
      let read = read_lines c at lines (record st { buf = rest }) in
      let open_ = read_lines-IsOpen total status at lines (record st { buf = rest }) h in
      elim (Bool-cases (is_nil read.1)) [
        | inl q ↦ rw q (inl open_)
        | inr q ↦ rw q (relay-IsAccounted total status read.1 read.0 open_)
      ]

  flush-IsOpen :
      (total status : ℕ) (st : StreamState c)
      → IsOpen total status st
      → IsOpen total status (flush c st).0
  unfolding flush
  flush-IsOpen total status st h = elim (Bool-cases (is_nil st.buf)) [
    | inl q ↦ rw q h
    | inr q ↦ rw q (read_line-IsOpen total status st.buf (record st { buf = [] }) h)
  ]

  close-IsFiled :
      (total status : ℕ) (st : StreamState c)
      → IsOpen total status st
      → IsFiled (sent_after total (close c st).1) status (close c st).0
  unfolding close file sent_after
  close-IsFiled total status st h =
      let (r, d, f, u, b, s) = flush-IsOpen total status st h in
      let (st1, events) = flush c st in
      let (encoder, body) =
        if is_nil events then (st1.encoder, []) else c.encode st1.encoder events in
      let more = length (body ++ c.finish encoder) in
      let (g, same, is) =
        file-filed (total + more) st1.status false
          (record st1 {
            encoder = encoder;
            is_done = true;
            response_bytes = st1.response_bytes + more;
          })
          f u (ap (λ n. n + more) b) in
      (g, refl, refl, same, rw (← s) is)

  advance_read-IsAccounted :
      (total status : ℕ) (read : Option (Result (ℕ × List ℕ))) (st : StreamState c)
      → IsOpen total status st
      → IsAccounted (sent_after total (advance_read c read st).1) status (advance_read c read st).0
  unfolding advance_read sent_after file
  advance_read-IsAccounted total status (some (ok (at, chunk))) st h =
      receive-IsAccounted total status at chunk st h
  advance_read-IsAccounted total status (some (err e)) st (r, d, f, u, b, s) =
      let (g, same, is) = file-filed total st.status true (record st { is_done = true }) f u b in
      inr (g, refl, refl, same, rw (← s) is)
  advance_read-IsAccounted total status none st h = inr (close-IsFiled total status st h)

  pub advance-open :
      (st : StreamState c)
      → st.is_done ≡ false
      → advance c st
        ≡ advance_read c (next_or_stall st.upstream) (record st { upstream = drop 1 st.upstream })
  unfolding advance
  advance-open st d = simp d refl

  pub advance-stopped :
      (st : StreamState c)
      → st.is_done ≡ true
      → advance c st ≡ (if st.recorded then st else file c st.status false st, ended)
  unfolding advance
  advance-stopped st d = simp d refl

  pub advance-over :
      (st : StreamState c) → st.is_done ≡ true → st.recorded ≡ true → advance c st ≡ (st, ended)
  unfolding advance
  advance-over st d r = simp (d, r) refl

  advance-IsAccounted :
      (total status : ℕ) (st : StreamState c)
      → IsAccounted total status st
      → IsAccounted (sent_after total (advance c st).1) status (advance c st).0
  unfolding sent_after
  advance-IsAccounted total status st (inl h) = rw (advance-open st h.1) (
      advance_read-IsAccounted total status (next_or_stall st.upstream)
        (record st { upstream = drop 1 st.upstream }) h)
  advance-IsAccounted total status st (inr (g, r, d, f, is)) =
      rw (advance-over st d r) (inr (g, r, d, f, is))

  pub drive-IsAccounted :
      (n total status : ℕ) (st : StreamState c)
      → IsAccounted total status st
      → IsAccounted (sent_bytes total (drive c n st).1) status (drive c n st).0
  unfolding drive sent_bytes
  drive-IsAccounted zero total status st h = h
  drive-IsAccounted (suc n) total status st h =
      drive-IsAccounted n (sent_after total (advance c st).1) status (advance c st).0
        (advance-IsAccounted total status st h)

  drop_stream-filed :
      (total status : ℕ) (st : StreamState c)
      → IsAccounted total status st
      → (f : Filing) × ((drop_stream c st).filed ≡ f ∷ [])
        × IsRecord total (if st.recorded then status else 499) f
  unfolding drop_stream
  drop_stream-filed total status st (inl (r, d, f, u, b, s)) =
      simp r (file-filed total 499 true st f u b)
  drop_stream-filed total status st (inr (g, r, d, same, is)) = simp r (g, same, is)

-- However far a stream is served, to its end, to a transport error or to a moment between two
-- iterations, which is while a read is awaited, when the client leaves, it is filed exactly once: with the status 499 where the stream was left before its end went
-- out and with the upstream's status otherwise, with the number of the bytes that were sent, and with
-- the usage of the response that is captured.
pub drop_stream-drive :
    (c : Codec) (n : ℕ) (upstream : List Read) (decoder : c.Decoder) (encoder : c.Encoder)
    (surface : WireFormat) (status : ℕ) (request_id : String)
    → let (st, ys) = drive c n (opened c upstream decoder encoder surface status request_id) in
      (f : Filing) × ((drop_stream c st).filed ≡ f ∷ [])
      × IsRecord (sent_bytes 0 ys) (if st.recorded then status else 499) f
unfolding opened
drop_stream-drive c n upstream decoder encoder surface status request_id =
    drop_stream-filed c _ status _ (
      drive-IsAccounted c n 0 status (opened c upstream decoder encoder surface status request_id)
        (inl (refl, refl, refl, refl, refl, refl)))
