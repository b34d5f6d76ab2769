-- ===== src/Gateway/Embeddings.antt =====
-- crates/yb-gateway/src/embed.rs: a turn of embeddings. The translators of crates/yb-wire and the HTTP client
-- are parameters, the record `EmbedServices`; a client's answers depend on the calls before, its `World`. A
-- text and a body have a character for each byte.
pub mod Records
use Prim.Native.String
use sovereign_gateway.Base.{
  ℕ, ◌+◌, ◌/◌, ◌-◌, ◌^◌, String, Bool, true, false, ◌&&◌, ◌||◌, Option, none, some, List, [], ◌∷◌,
  ◌++◌, ltb, leb, min, if◌then◌else◌, is_nil, any, unwrap_or,
}
use Prim.Native.String.{len}
use sovereign_gateway.Core.Access.{union}
use sovereign_gateway.Core.Deployments.{Deployment, RouteRequest, Decision}
use sovereign_gateway.Core.Errors.{
  Error, http_status, upstream, bad_request, no_eligible_provider, connection_lost, Result, ok, err,
}
use sovereign_gateway.Core.Formats.{EmbedFormat, chat, embed, media}
use sovereign_gateway.Gateway.Bodies.{ResponseBody, full, streamed, read_body_message}
use sovereign_gateway.Gateway.Dispatch.{
  RequestCtx, UpstreamRequest, post, Sent, unreachable, answered, Turn, filter_access,
  extra_headers,
}
use sovereign_gateway.Gateway.Turns.{
  Answer, failed, answered_full, Recorded, TurnReport, Round, skipped, next, ended, guard_record,
  turn_record, failed_turn, try_decided, policy_request,
}
use sovereign_gateway.Routing.Order.{Floats}
use sovereign_gateway.Routing.Resolve.{Router, resolve}
use sovereign_gateway.Upstream.Headers.{embed_auth_headers, append_headers}
use sovereign_gateway.Upstream.Urls.{build_embed_url, is_retryable, is_model_not_found}
use sovereign_gateway.Wire.Embed.{
  EmbedRequest, EmbedResponse, EmbedInput, EmbedPart, text, image, audio, has_image,
}

pub record EmbedServices : Type 1 where
  pub World : Type 0
  pub env : String → Option String
  pub cf_access : Option (String × String)
  pub parse_request : EmbedFormat → String → Result EmbedRequest
  pub emit_request : EmbedFormat → EmbedRequest → String → Result (String × List (String × String))
  pub parse_response : EmbedFormat → String → Result EmbedResponse
  pub emit_response : EmbedFormat → EmbedResponse → EmbedRequest → Result String
  pub to_vec : EmbedResponse → String
  pub send : UpstreamRequest → World → World × Sent

abbrev pub text_size : EmbedPart → ℕ
text_size (text t) = len t
text_size (image media_type data_ url) = 0
text_size (audio format data_) = 0

unfoldable pub parts_size : List EmbedPart → ℕ
parts_size [] = 0
parts_size (p ∷ parts) = text_size p + parts_size parts

unfoldable pub inputs_size : List EmbedInput → ℕ
unfolding parts_size
inputs_size [] = 0
inputs_size (input ∷ inputs) = parts_size input.parts + inputs_size inputs

unfoldable pub build_embed_route_request : EmbedRequest → RequestCtx → RouteRequest
unfolding policy_request inputs_size any has_image
build_embed_route_request req ctx =
    policy_request req.model (min (inputs_size req.inputs / 4) (2 ^ 32 - 1))
      (any has_image req.inputs) ctx

unfoldable pub is_lost : Sent → Bool
is_lost (answered status body) = false
is_lost (unreachable e) = elim e [ connection_lost m ↦ true | _ ↦ false ]

module _ (s : EmbedServices) (surface : EmbedFormat) (req : EmbedRequest) where
  -- The guard is still armed where the answer cannot be read or written: its drop records the turn.
  unfoldable pub unreadable : Error → Round
  unfolding guard_record
  unreadable e = ended (failed e) (guard_record req.model 499)

  unfoldable pub emit_embedded : Deployment → ℕ → EmbedResponse → Round
  unfolding unreadable turn_record
  emit_embedded d status parsed = elim (s.emit_response surface parsed req) [
    | err e ↦ unreadable e
    | ok body ↦
        ended (answered_full status (("content-type", "application/json") ∷ []) body)
          (turn_record d status false parsed.usage.input_tokens (len body) (s.to_vec parsed))
  ]

  abbrev bytes_of : ResponseBody → String
  bytes_of (full body) = body
  bytes_of (streamed chunks) = read_body_message (streamed chunks)

  unfoldable pub commit_embed : Deployment → EmbedFormat → ℕ → ResponseBody → Round
  unfolding unreadable emit_embedded read_body_message
  commit_embed d fmt status body = elim (s.parse_response fmt (bytes_of body)) [
    | err e ↦ unreadable e
    | ok parsed ↦ emit_embedded d status parsed
  ]

  unfoldable pub settle_embed : Deployment → EmbedFormat → Sent → Round
  unfolding commit_embed read_body_message is_retryable is_model_not_found turn_record
  settle_embed d fmt (unreachable e) = next e
  settle_embed d fmt (answered status body) =
      let e = upstream d.provider status (read_body_message body) in
      if leb 200 status && ltb status 300
      then commit_embed d fmt status body
      else if is_retryable status || is_model_not_found status
      then next e
      else ended (failed e) (turn_record d status true 0 0 "")

  -- A connection that is lost as it is reused: the same deployment is asked once more.
  unfoldable pub ask : UpstreamRequest → s.World → s.World × Sent
  unfolding is_lost
  ask u w = let (w1, sent) = s.send u w in if is_lost sent then s.send u w1 else (w1, sent)

  unfoldable pub embed_request :
      EmbedFormat → Deployment → String × List (String × String) → UpstreamRequest
  unfolding build_embed_url embed_auth_headers append_headers extra_headers
  embed_request fmt d (body, headers) = record {
    url = build_embed_url fmt d.api_base d.upstream_model;
    method = post;
    headers =
        append_headers (headers ++ embed_auth_headers s.env fmt (unwrap_or d.api_key ""))
          (extra_headers s.cf_access d.extra);
    body = body;
    stream = false;
  }

  unfoldable pub embed_by : Deployment → EmbedFormat → s.World → s.World × Round
  unfolding guard_record http_status settle_embed ask embed_request
  embed_by d fmt w = elim (s.emit_request fmt req d.upstream_model) [
    | err e ↦ (w, ended (failed e) (guard_record req.model (http_status e)))
    | ok emitted ↦
        let (w1, sent) = ask (embed_request fmt d emitted) w in (w1, settle_embed d fmt sent)
  ]

  -- Only the deployments of an embedding format are asked.
  unfoldable pub embed_round : Deployment → s.World → s.World × Round
  unfolding embed_by
  embed_round d w = elim d.upstream_format [
    | embed fmt ↦ embed_by d fmt w
    | chat fmt ↦ (w, skipped)
    | media fmt ↦ (w, skipped)
  ]

  abbrev join_text : String → String → String
  join_text a b = String.◌++◌ a b

  unfoldable pub embed_exhausted : Bool → Option Error → Error
  embed_exhausted saw_chat_only last_err =
      if saw_chat_only
      then bad_request (
          join_text "model "
            (join_text req.model " resolves only to chat deployments; use a chat endpoint"))
      else unwrap_or last_err (no_eligible_provider req.model)

  unfoldable pub embed_decided : RequestCtx → Result Decision → s.World → s.World × TurnReport
  unfolding try_decided embed_round embed_exhausted
  embed_decided ctx decision w = try_decided req.model embed_round embed_exhausted ctx decision w

-- `handle_embed`: a body that cannot be parsed is no turn. The router is the one afterwards.
unfoldable pub handle_embed :
    (s : EmbedServices)
    → Floats
    → EmbedFormat
    → String
    → RequestCtx
    → Router
    → s.World
    → (s.World × Router) × TurnReport
unfolding resolve build_embed_route_request embed_decided
handle_embed s f surface body ctx r w = elim (s.parse_request surface body) [
  | err e ↦ ((w, r), record { answer = failed e; recorded = []; tried = [] })
  | ok req ↦
      let (decision, r1) = resolve f (build_embed_route_request req ctx) r in
      let (w1, report) = embed_decided s surface req ctx decision w in ((w1, r1), report)
]
