-- ===== src/Examples/Streams.antt =====
-- A stream of two lines that comes in chunks, and what its turn leaves in the books.
use Prim.Native.String
use sovereign_gateway.Base.{
  ℕ, ◌+◌, ◌-◌, ◌*◌, ◌%◌, String, ◌≡◌, refl, true, false, Option, none, some, List, [], ◌∷◌, ◌++◌,
  map, ◌==◌, arith, eqb, if◌then◌else◌, length,
}
use sovereign_gateway.Gateway.Stream.{
  Codec, drive, Filing, opened, poll, drop_stream, advance, arrived, continue, ended, yielded,
}
use sovereign_gateway.Wire.Response.{text_delta, no_usage}
use sovereign_gateway.Gateway.Stream.Polls.{IsSettled, poll-IsSettled, drive-ended}
use sovereign_gateway.Gateway.Buffered.{aggregate_stream}
use sovereign_gateway.Gateway.Ledger.{Books}
use sovereign_gateway.Gateway.Ledger.Accounts.{
  Entry, IsReconciled, book, no_entries, book-IsReconciled,
}
use sovereign_gateway.Core.Errors.{ok}
use sovereign_gateway.Gateway.Buffered.Chunks.{reads_of, bytes_of, aggregate_stream-chunks, untimed}
use sovereign_gateway.Base.Int.{pos_part, pos}
use sovereign_gateway.Examples.{first}
use sovereign_gateway.Core.Formats.{openai_chat, anthropic}
use sovereign_gateway.Gateway.Stream.Filings.{IsRecord, sent_bytes, drop_stream-drive}

-- Bytes are the characters with their codes, a line is a piece of text, and each event is a byte.
abbrev text_of_bytes : List ℕ → String
text_of_bytes [] = ""
text_of_bytes (b ∷ bytes) =
    String.◌++◌ (if eqb b 10 then "" else if eqb b 104 then "h" else "i") (text_of_bytes bytes)

abbrev codec : Codec
codec = record {
  Decoder = Unit;
  Encoder = Unit;
  decode_line = λ d line. (tt, if line == "" then [] else text_delta line ∷ []);
  encode = λ e events. (tt, map (λ x. 46) events);
  finish = λ e. 33 ∷ [];
  emit_response = λ surface resp. ok (46 ∷ 33 ∷ []);
  from_utf8_lossy = text_of_bytes;
  json = record { from_str = λ t. none; to_string = λ v. "{}" };
}

abbrev chunks : List (ℕ × List ℕ)
chunks = (20, 104 ∷ 105 ∷ []) ∷ (30, 10 ∷ 104 ∷ []) ∷ []

drop_stream-drive_example :
    let (st, ys) = drive codec 2 (opened codec (reads_of chunks) tt tt openai_chat 200 "r1") in
    (f : Filing) × ((drop_stream codec st).filed ≡ f ∷ [])
    × IsRecord (sent_bytes 0 ys) (if st.recorded then 200 else 499) f
drop_stream-drive_example = drop_stream-drive codec 2 (reads_of chunks) tt tt openai_chat 200 "r1"

poll-IsSettled_example :
    IsSettled (poll codec (opened codec (reads_of chunks) tt tt openai_chat 200 "r1")).1
poll-IsSettled_example =
    poll-IsSettled codec (opened codec (reads_of chunks) tt tt openai_chat 200 "r1")

drive-ended_example :
    let st = (drive codec 3 (opened codec (reads_of chunks) tt tt anthropic 200 "r1")).0 in
    (st.recorded ≡ true) × (advance codec st ≡ (st, ended))
drive-ended_example = drive-ended codec 3 (reads_of chunks) tt tt anthropic 200 "r1" (omega arith)

aggregate_stream-chunks_example :
    untimed codec
      (aggregate_stream codec (reads_of chunks) tt openai_chat "r1" 200 none (some "24h"))
    ≡ untimed codec (
        aggregate_stream codec
          (arrived 5 (bytes_of chunks) ∷ [])
          tt
          openai_chat
          "r1"
          200
          none
          (some "24h"))
aggregate_stream-chunks_example =
    aggregate_stream-chunks codec chunks 5 tt openai_chat "r1" 200 none (some "24h")

-- What the stream sends, and its text as it is captured.
drive_test :
    let (st, ys) = drive codec 3 (opened codec (reads_of chunks) tt tt openai_chat 200 "r1") in
    (ys ≡ continue ∷ yielded (ok (46 ∷ [])) ∷ yielded (ok (46 ∷ 33 ∷ [])) ∷ [])
    × (map (λ f. f.status) st.filed ≡ 200 ∷ [])
unfolding drive opened
drive_test = (refl, refl)

abbrev books : Books
books = record {
  arithmetic = record { of_i64 = pos_part; mul = ◌*◌; add = ◌+◌; round = pos };
  bucket_start = λ period at. at - at % 86400;
  to_vec = λ r. [];
}

abbrev filing : Filing
filing = record {
  usage = record no_usage { input_tokens = 12; output_tokens = 3 };
  status = 200;
  is_error = false;
  response_body = none;
  response_bytes = 40;
  first_token = some 300;
}

abbrev entry : String → Option String → Entry
entry id user_id = record {
  ctx = record {
    api_key_id = some "k1";
    user_id = user_id;
    team_id = none;
    trace_id = none;
    parent_span_id = none;
    request_id = id;
    surface = "openai_chat";
    requested_model = "fast";
    deployment = first;
    request_body = [];
    created_at = 90000;
    has_meter = true;
    tags = none;
    reports_usage = true;
    waited_ms = none;
  };
  id = id;
  latency = pos 900;
  filing = filing;
}

book-IsReconciled_example :
    let es = entry "r1" none ∷ entry "r2" (some "u1") ∷ [] in
    IsReconciled (book books es no_entries)
    × (length (book books es no_entries).turns ≡ 2)
    × (length (book books es no_entries).logged ≡ 2)
book-IsReconciled_example = book-IsReconciled books (entry "r1" none ∷ entry "r2" (some "u1") ∷ [])
