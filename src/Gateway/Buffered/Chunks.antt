-- ===== src/Gateway/Buffered/Chunks.antt =====
-- crates/yb-gateway/src/service.rs, `aggregate_stream`: the boundaries of chunks do not matter.
use sovereign_gateway.Base.{
  ℕ, String, ◌≡◌, refl, sym, ap, ◌∙◌, Option, none, List, [], ◌∷◌, ◌++◌, if◌then◌else◌, is_nil,
  some, map, false, length,
}
use sovereign_gateway.Gateway.Stream.{Read, Codec, arrived, Filing}
use sovereign_gateway.Wire.Aggregate.{Aggregator, push_all, new_aggregator, into_response}
use sovereign_gateway.Gateway.Buffered.{
  gather_lines, Gathering, gather, gathered, aggregate_stream, emit_full, emit_gathered, Served,
  start, in_full, json_headers,
}
use sovereign_gateway.Core.Formats.{WireFormat}
use sovereign_gateway.Base.Text.{trim_line_end}
use sovereign_gateway.Gateway.Lines.{
  split_lines, IsPartial, split_lines_partial, split_lines-IsPartial, split_lines-append,
}
use mathlib.Core.List.{append-nil, append_assoc}
use sovereign_gateway.Core.Errors.{ok, err, Result}
use sovereign_gateway.Gateway.Timing.{apply_cache_echo}
use mathlib.Core.Path.{subst}
use sovereign_gateway.Wire.Response.{ChatResponse}

-- The bytes of chunks, which come with their times.
abbrev pub bytes_of : List (ℕ × List ℕ) → List ℕ
bytes_of [] = []
bytes_of ((at, chunk) ∷ chunks) = chunk ++ bytes_of chunks

abbrev pub reads_of : List (ℕ × List ℕ) → List Read
reads_of [] = []
reads_of ((at, chunk) ∷ chunks) = arrived at chunk ∷ reads_of chunks

module _ (c : Codec) where
  -- What is read of lines, without the times.
  read_all : List (List ℕ) → c.Decoder × Aggregator → c.Decoder × Aggregator
  read_all [] (d, a) = (d, a)
  read_all (line ∷ lines) (d, a) =
      let (d1, events) = c.decode_line d (trim_line_end (c.from_utf8_lossy line)) in
      read_all lines (d1, push_all events a)

  read_all-append :
      (ls ms : List (List ℕ)) (p : c.Decoder × Aggregator)
      → read_all (ls ++ ms) p ≡ read_all ms (read_all ls p)
  unfolding read_all
  read_all-append [] ms p = refl
  read_all-append (l ∷ ls) ms (d, a) = read_all-append ls ms _

  gather_lines-read_all :
      (at : ℕ) (lines : List (List ℕ)) (g : Gathering c)
      → let g1 = gather_lines c at lines g in
        ((g1.decoder, g1.agg) ≡ read_all lines (g.decoder, g.agg)) × (g1.buf ≡ g.buf)
  unfolding gather_lines read_all
  gather_lines-read_all at [] g = (refl, refl)
  gather_lines-read_all at (line ∷ lines) g = gather_lines-read_all at lines _

  -- What is gathered from a state with nothing in the buffer but what was read.
  IsGathered : Gathering c → List ℕ → Gathering c → Type 0
  IsGathered g bytes g1 =
      ((g1.decoder, g1.agg) ≡ read_all (split_lines (g.buf ++ bytes)).0 (g.decoder, g.agg))
      × (g1.buf ≡ (split_lines (g.buf ++ bytes)).1)

  gather-IsGathered :
      (chunks : List (ℕ × List ℕ)) (g : Gathering c)
      → IsPartial g.buf
      → (g1 : Gathering c) × (gather c (reads_of chunks) g ≡ (g1, none))
        × IsGathered g (bytes_of chunks) g1
  unfolding gather IsGathered read_all
  gather-IsGathered [] g h = (g, refl, rw (append-nil, split_lines_partial g.buf h) (refl, refl))
  gather-IsGathered ((at, chunk) ∷ chunks) g h =
      let lines = (split_lines (g.buf ++ chunk)).0 in
      let rest = (split_lines (g.buf ++ chunk)).1 in
      let more = bytes_of chunks in
      let g2 = gather_lines c at lines (record g { buf = rest }) in
      let (read, kept) = gather_lines-read_all at lines (record g { buf = rest }) in
      let partial = subst IsPartial (sym kept) (split_lines-IsPartial (g.buf ++ chunk)) in
      let (g1, run, (got, left)) = gather-IsGathered chunks g2 partial in
      let whole =
        ap split_lines (sym (append_assoc g.buf chunk more))
        ∙ split_lines-append (g.buf ++ chunk) more in
      let next = split_lines (rest ++ more) in
      (
        g1,
        run,
        (
          got
              ∙ ap (λ b. read_all (split_lines (b ++ more)).0 (g2.decoder, g2.agg)) kept
              ∙ ap (read_all next.0) read
              ∙ sym (read_all-append lines next.0 (g.decoder, g.agg))
              ∙ ap (λ s. read_all s.0 (g.decoder, g.agg)) (sym whole),
          left ∙ ap (λ b. (split_lines (b ++ more)).1) kept ∙ ap (λ s. s.1) (sym whole),
        ),
      )

  abbrev with_rest : c.Decoder × Aggregator → List ℕ → Aggregator
  with_rest (d, a) rest =
      if is_nil rest
      then a
      else push_all (c.decode_line d (trim_line_end (c.from_utf8_lossy rest))).1 a

  -- What is aggregated of a body that is read at once.
  whole_body : List ℕ → c.Decoder → Aggregator
  whole_body bytes decoder =
      let (lines, rest) = split_lines bytes in
      with_rest (read_all lines (decoder, new_aggregator)) rest

  gathered-whole_body :
      (g : Gathering c) (bytes : List ℕ) (decoder : c.Decoder)
      → (g.decoder, g.agg) ≡ read_all (split_lines bytes).0 (decoder, new_aggregator)
      → g.buf ≡ (split_lines bytes).1
      → gathered c g ≡ whole_body bytes decoder
  unfolding gathered whole_body
  gathered-whole_body g bytes decoder e f =
      ap (λ p. with_rest p g.buf) e
      ∙ ap (with_rest (read_all (split_lines bytes).0 (decoder, new_aggregator))) f

  -- The response and the calls of `finish`, without the time of the first token.
  abbrev pub untimed : Served → Served
  untimed (response, filed) =
      (response, map (λ (f : Filing). record f { first_token = none }) filed)

  emit_full-untimed :
      (surface : WireFormat) (resp : ChatResponse) (first_token : Option ℕ) (status : ℕ)
      → untimed (emit_full c surface resp first_token status) ≡ emit_full c surface resp none status
  unfolding emit_full
  emit_full-untimed surface resp first_token status = by_bytes (c.emit_response surface resp)
    where
      filing : Option ℕ → List ℕ → Filing
      filing first bytes = record {
        usage = resp.usage;
        status = status;
        is_error = false;
        response_body = some resp;
        response_bytes = length bytes;
        first_token = first;
      }

      served : Option ℕ → Result (List ℕ) → Served
      served first r = elim r [
        | err e ↦ (err e, [])
        | ok bytes ↦ (ok (in_full status (json_headers surface) bytes), filing first bytes ∷ [])
      ]

      by_bytes : (r : Result (List ℕ)) → untimed (served first_token r) ≡ served none r
      by_bytes (err e) = refl
      by_bytes (ok bytes) = refl

  gather_whole :
      (chunks : List (ℕ × List ℕ)) (decoder : c.Decoder) (surface : WireFormat)
      (request_id : String) (status : ℕ) (key retention : Option String)
      → untimed
          (aggregate_stream c (reads_of chunks) decoder surface request_id status key retention)
        ≡ emit_full c surface
            (apply_cache_echo
              (into_response c.json request_id (whole_body (bytes_of chunks) decoder))
              key
              retention)
            none
            status
  unfolding aggregate_stream emit_gathered IsGathered
  gather_whole chunks decoder surface request_id status key retention =
      let (g, run, (got, left)) = gather-IsGathered chunks (start c decoder) tt in
      let response : Aggregator → ChatResponse =
        λ a. apply_cache_echo (into_response c.json request_id a) key retention in
      ap (λ r. untimed (emit_gathered c surface request_id status key retention r)) run
      ∙ emit_full-untimed surface (response (gathered c g)) g.first_token status
      ∙ ap (λ a. emit_full c surface (response a) none status)
          (gathered-whole_body g (bytes_of chunks) decoder got left)

-- A buffered answer does not depend on how the upstream's bytes are cut into chunks, nor on when they
-- come: the response or the error and what is filed, but for the time of the first token, are those of
-- the whole body in one chunk.
pub aggregate_stream-chunks :
    (c : Codec) (chunks : List (ℕ × List ℕ)) (at : ℕ) (decoder : c.Decoder) (surface : WireFormat)
    (request_id : String) (status : ℕ) (key retention : Option String)
    → untimed c
        (aggregate_stream c (reads_of chunks) decoder surface request_id status key retention)
      ≡ untimed c (
          aggregate_stream c
            (arrived at (bytes_of chunks) ∷ [])
            decoder
            surface
            request_id
            status
            key
            retention)
aggregate_stream-chunks c chunks at decoder surface request_id status key retention =
    let bytes = bytes_of chunks in
    rw
      (
        gather_whole c chunks decoder surface request_id status key retention,
        gather_whole c ((at, bytes) ∷ []) decoder surface request_id status key retention,
        append-nil bytes,
      )
      refl
