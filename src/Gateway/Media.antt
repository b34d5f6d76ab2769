-- ===== src/Gateway/Media.antt =====
-- crates/yb-gateway/src/media.rs: a turn of images, speech or transcripts, which is forwarded as it came. The
-- reader of the requests and the HTTP client are parameters, the record `MediaServices`; a client's answers
-- depend on the calls before, its `World`. A body is a text with a character for each byte.
pub mod Records
pub mod Videos
use Prim.Native.String
use sovereign_gateway.Base.{
  ℕ, String, Bool, true, false, ◌&&◌, ◌||◌, Option, [], ◌∷◌, ltb, leb, if◌then◌else◌, unwrap_or,
}
use Prim.Native.String.{len}
use sovereign_gateway.Base.Text.{starts_with}
use sovereign_gateway.Core.Deployments.{Deployment, RouteRequest, Decision}
use sovereign_gateway.Core.Errors.{
  Error, http_status, upstream, bad_request, no_eligible_provider, Result, ok, err,
}
use sovereign_gateway.Core.Formats.{MediaFormat, media, media_path, UpstreamFormat-discrete}
use sovereign_gateway.Gateway.Bodies.{ResponseBody, full, streamed, read_body_message}
use sovereign_gateway.Gateway.Dispatch.{
  RequestCtx, UpstreamRequest, post, Sent, unreachable, answered, extra_headers,
}
use sovereign_gateway.Gateway.Turns.{
  failed, answered_full, TurnReport, Round, skipped, next, ended, guard_record, turn_record,
  try_decided, policy_request,
}
use sovereign_gateway.Routing.Order.{Floats}
use sovereign_gateway.Routing.Resolve.{Router, resolve}
use sovereign_gateway.Upstream.Headers.{media_auth_headers, append_headers}
use sovereign_gateway.Upstream.Urls.{build_media_url, is_retryable, is_model_not_found}
use sovereign_gateway.Wire.Media.{MediaRequest}

-- With an answer comes its content type, if it has one.
pub record MediaServices : Type 1 where
  pub World : Type 0
  pub env : String → Option String
  pub cf_access : Option (String × String)
  pub route_request : String → String → Result MediaRequest
  pub upstream_body : MediaRequest → String → String → Result String
  pub video_model : String → Option String
  pub send : UpstreamRequest → World → World × (Sent × Option String)

unfoldable pub build_media_route_request : String → RequestCtx → RouteRequest
unfolding policy_request
build_media_route_request model ctx = policy_request model 0 false ctx

abbrev join_text : String → String → String
join_text a b = String.◌++◌ a b

abbrev pub type_of : Option String → String
type_of response_type = unwrap_or response_type "application/octet-stream"

abbrev pub bytes_of : ResponseBody → String
bytes_of (full body) = body
bytes_of (streamed chunks) = read_body_message (streamed chunks)

module _ (s : MediaServices) (surface : MediaFormat) (request : MediaRequest) (body : String)
    (content_type : String) where
  -- Audio is not kept in the request log; a JSON answer is.
  unfoldable pub commit_media : Deployment → ℕ → Option String → String → Round
  unfolding turn_record starts_with
  commit_media d status response_type bytes =
      let logged = if starts_with "application/json" (type_of response_type) then bytes else "" in
      ended (answered_full status (("content-type", type_of response_type) ∷ []) bytes)
        (turn_record d status false 0 (len bytes) logged)

  unfoldable pub settle_media : Deployment → Sent × Option String → Round
  unfolding commit_media read_body_message is_retryable is_model_not_found turn_record
  settle_media d (unreachable e, response_type) = next e
  settle_media d (answered status answer, response_type) =
      let e = upstream d.provider status (read_body_message answer) in
      if leb 200 status && ltb status 300
      then commit_media d status response_type (bytes_of answer)
      else if is_retryable status || is_model_not_found status
      then next e
      else ended (failed e) (turn_record d status true 0 0 "")

  unfoldable pub media_request : Deployment → String → UpstreamRequest
  unfolding build_media_url media_auth_headers append_headers extra_headers
  media_request d upstream_body = record {
    url = build_media_url surface d.api_base;
    method = post;
    headers =
        append_headers
          (("content-type", content_type) ∷ media_auth_headers s.env (unwrap_or d.api_key ""))
          (extra_headers s.cf_access d.extra);
    body = upstream_body;
    stream = false;
  }

  unfoldable pub media_by : Deployment → s.World → s.World × Round
  unfolding guard_record http_status settle_media media_request
  media_by d w = elim (s.upstream_body request body d.upstream_model) [
    | err e ↦ (w, ended (failed e) (guard_record request.model (http_status e)))
    | ok forwarded ↦
        let (w1, sent) = s.send (media_request d forwarded) w in (w1, settle_media d sent)
  ]

  -- Only a deployment that serves the same endpoint is asked.
  unfoldable pub media_round : Deployment → s.World → s.World × Round
  unfolding media_by UpstreamFormat-discrete
  media_round d w = elim (UpstreamFormat-discrete d.upstream_format (media surface)) [
    | yes same ↦ media_by d w
    | no other ↦ (w, skipped)
  ]

  unfoldable pub media_exhausted : Bool → Option Error → Error
  unfolding media_path
  media_exhausted saw_other_kind_only last_err =
      if saw_other_kind_only
      then bad_request (
          join_text "model "
            (join_text request.model (join_text " does not serve " (media_path surface))))
      else unwrap_or last_err (no_eligible_provider request.model)

  unfoldable pub media_decided : RequestCtx → Result Decision → s.World → s.World × TurnReport
  unfolding try_decided media_round media_exhausted
  media_decided ctx decision w =
      try_decided request.model media_round media_exhausted ctx decision w

unfoldable pub handle_media :
    (s : MediaServices)
    → Floats
    → MediaFormat
    → String
    → String
    → RequestCtx
    → Router
    → s.World
    → (s.World × Router) × TurnReport
unfolding resolve build_media_route_request media_decided
handle_media s f surface body content_type ctx r w = elim (s.route_request body content_type) [
  | err e ↦ ((w, r), record { answer = failed e; recorded = []; tried = [] })
  | ok request ↦
      let (decision, r1) = resolve f (build_media_route_request request.model ctx) r in
      let (w1, report) = media_decided s surface request body content_type ctx decision w in
      ((w1, r1), report)
]
