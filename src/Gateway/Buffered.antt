-- ===== src/Gateway/Buffered.antt =====
-- crates/yb-gateway/src/service.rs: the answer of an upstream that is handed on in one piece, and one in
-- one piece that is handed on as a stream.
pub mod Chunks
use sovereign_gateway.Base.{
  ℕ, zero, suc, ◌+◌, ◌-◌, ◌*◌, ◌%◌, ◌≤◌, ◌<◌, String, ◌≡◌, ◌≢◌, refl, sym, ap, ◌∙◌, ◌↔◌, ◌⊎◌, inl,
  inr, Bool, true, false, not, ◌&&◌, ◌||◌, Option, none, some, List, [], ◌∷◌, ◌++◌, map, ◌==◌,
  eq_iff, eq_refl, arith, ltb, leb, eqb, if◌then◌else◌, Bool-cases, Option-cases, All, All-append,
  length, is_nil, select, contains, any, unwrap_or, or_else,
}
use sovereign_gateway.Gateway.Stream.{Codec, next_or_stall, Filing, saw, Read}
use sovereign_gateway.Core.Errors.{Result, ok, err, Error}
use sovereign_gateway.Core.Formats.{WireFormat}
use sovereign_gateway.Wire.Aggregate.{
  events_from_response, Aggregator, into_response, push_all, new_aggregator,
}
use sovereign_gateway.Base.Text.{trim_line_end}
use sovereign_gateway.Wire.Response.{ChatResponse, no_usage}
use sovereign_gateway.Gateway.Lines.{split_lines}
use sovereign_gateway.Gateway.Timing.{apply_cache_echo}

pub data GatewayResponse : Type 0 where
  in_full : (status : ℕ) → List (String × String) → List ℕ → GatewayResponse
  as_stream : (status : ℕ) → List (String × String) → List (List ℕ) → GatewayResponse

unfoldable pub full_content_type : WireFormat → String
full_content_type fmt = "application/json"

unfoldable pub json_headers : WireFormat → List (String × String)
unfolding full_content_type
json_headers surface = ("content-type", full_content_type surface) ∷ []

abbrev pub sse_headers : List (String × String)
sse_headers = ("content-type", "text/event-stream") ∷ ("cache-control", "no-cache") ∷ []

-- The response for the client and the calls of `finish`.
abbrev pub Served : Type 0
Served = Result GatewayResponse × List Filing

unfoldable pub emit_full : Codec → WireFormat → ChatResponse → Option ℕ → ℕ → Served
unfolding json_headers
emit_full c surface resp first_token status = elim (c.emit_response surface resp) [
  | err e ↦ (err e, [])
  | ok bytes ↦ (
    ok (in_full status (json_headers surface) bytes),
    record {
      usage = resp.usage;
      status = status;
      is_error = false;
      response_body = some resp;
      response_bytes = length bytes;
      first_token = first_token;
    }
        ∷ [],
  )
]

unfoldable pub full_to_stream : (c : Codec) → c.Encoder → ChatResponse → WireFormat → ℕ → Served
unfolding events_from_response
full_to_stream c encoder resp surface status =
    let bytes = (c.encode encoder (events_from_response c.json resp)).1 in
    (
      ok (as_stream status sse_headers (bytes ∷ [])),
      record {
        usage = resp.usage;
        status = status;
        is_error = false;
        response_body = some resp;
        response_bytes = length bytes;
        first_token = none;
      }
          ∷ [],
    )

-- What the loop of `aggregate_stream` changes.
pub record Gathering (c : Codec) : Type 0 where
  pub decoder : c.Decoder
  pub agg : Aggregator
  pub buf : List ℕ
  pub first_token : Option ℕ

module _ (c : Codec) where
  unfoldable pub gather_lines : ℕ → List (List ℕ) → Gathering c → Gathering c
  unfolding trim_line_end saw push_all
  gather_lines at [] g = g
  gather_lines at (line ∷ lines) g =
      let (decoder, events) = c.decode_line g.decoder (trim_line_end (c.from_utf8_lossy line)) in
      gather_lines at lines (record g {
        decoder = decoder;
        agg = push_all events g.agg;
        first_token = saw at events g.first_token;
      })

  -- Whatever was gathered is there when a read fails.
  unfoldable pub gather : List Read → Gathering c → Gathering c × Option Error
  unfolding next_or_stall split_lines gather_lines
  gather [] g = (g, none)
  gather (read ∷ upstream) g = elim (next_or_stall (read ∷ upstream)) [
    | none ↦ (g, none)
    | some (err e) ↦ (g, some e)
    | some (ok (at, chunk)) ↦
        let (lines, rest) = split_lines (g.buf ++ chunk) in
        gather upstream (gather_lines at lines (record g { buf = rest }))
  ]

  -- A partial line that is left is decoded.
  unfoldable pub gathered : Gathering c → Aggregator
  unfolding trim_line_end push_all
  gathered g =
      if is_nil g.buf
      then g.agg
      else push_all (c.decode_line g.decoder (trim_line_end (c.from_utf8_lossy g.buf))).1 g.agg

  -- The end of `aggregate_stream`: the answer, from what was gathered.
  unfoldable pub emit_gathered :
      WireFormat → String → ℕ → Option String → Option String → Gathering c × Option Error → Served
  unfolding gathered into_response apply_cache_echo emit_full
  emit_gathered surface request_id status key retention (g, some e) = (
    err e,
    record {
      usage = no_usage;
      status = status;
      is_error = true;
      response_body = none;
      response_bytes = 0;
      first_token = g.first_token;
    }
        ∷ [],
  )
  emit_gathered surface request_id status key retention (g, none) =
      emit_full c surface
        (apply_cache_echo (into_response c.json request_id (gathered g)) key retention)
        g.first_token status

  abbrev pub start : c.Decoder → Gathering c
  start decoder = record { decoder = decoder; agg = new_aggregator; buf = []; first_token = none }

  unfoldable pub aggregate_stream :
      List Read → c.Decoder → WireFormat → String → ℕ → Option String → Option String → Served
  unfolding gather emit_gathered
  aggregate_stream upstream decoder surface request_id status key retention =
      emit_gathered surface request_id status key retention (gather upstream (start decoder))
