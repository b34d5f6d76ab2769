-- ===== src/Gateway/Dispatch.antt =====
-- crates/yb-gateway/src/service.rs: the routing request of a turn, the ceilings of access, and the
-- loop over the candidates. The translators of crates/yb-wire and the HTTP client are parameters,
-- the record `Services`; what a served response does afterwards is outside of the model.
pub mod Records
pub mod Access
pub mod Failover
use sovereign_gateway.Base.{
  ℕ, zero, suc, ◌+◌, ◌-◌, ◌*◌, ◌%◌, ◌≤◌, ◌<◌, String, ◌≡◌, ◌≢◌, refl, sym, ap, ◌∙◌, ◌↔◌, ◌⊎◌, inl,
  inr, Bool, true, false, not, ◌&&◌, ◌||◌, Option, none, some, List, [], ◌∷◌, ◌++◌, map, ◌==◌,
  eq_iff, eq_refl, arith, ltb, leb, eqb, if◌then◌else◌, Bool-cases, Option-cases, All, All-append,
  length, is_nil, select, contains, any, unwrap_or, or_else,
}
use Prim.Native.String
use sovereign_gateway.Base.Text.{to_ascii_lowercase}
use sovereign_gateway.Gateway.Bodies.{ResponseBody, full, streamed, read_body_message}
use sovereign_gateway.Wire.Request.{ChatRequest}
use sovereign_gateway.Gateway.Estimate.{estimate_tokens, has_images}
use sovereign_gateway.Routing.Resolve.{Router, resolve}
use sovereign_gateway.Routing.Order.{Floats}
use sovereign_gateway.Core.Access.{AccessPolicy, permits_model, permits_provider, union}
use sovereign_gateway.Core.Deployments.{Deployment, Extra, RouteRequest, Decision}
use sovereign_gateway.Core.Errors.{
  Error, http_status, upstream, bad_request, no_eligible_provider, Result, ok, err,
}
use sovereign_gateway.Core.Formats.{WireFormat, chat, embed, media}
use sovereign_gateway.Upstream.Urls.{build_url, is_retryable, is_model_not_found}
use sovereign_gateway.Upstream.Headers.{auth_headers, append_headers, cloudflare_access_headers}

-- The fields of `RequestCtx` that routing reads.
pub record RequestCtx : Type 0 where
  pub excluded_model_ids : List String
  pub excluded_provider_ids : List String
  pub access : AccessPolicy

pub data HttpMethod : Type 0 where
  post get delete : HttpMethod

pub record UpstreamRequest : Type 0 where
  pub url : String
  pub method : HttpMethod
  pub headers : List (String × String)
  pub body : String
  pub stream : Bool

-- What a call of the client gives: a transport failure, or a status and a body.
pub data Sent : Type 0 where
  unreachable : Error → Sent
  answered : (status : ℕ) (body : ResponseBody) → Sent

pub record Services : Type 0 where
  pub env : String → Option String
  pub cf_access : Option (String × String)
  pub emit_request : WireFormat → ChatRequest → String → Result (String × List (String × String))
  pub send : UpstreamRequest → Sent
  pub parse_response : WireFormat → String → Result String

-- A turn in the telemetry: the model and the provider of the decision, and how it ended. The other
-- columns are copied from the request, measured, or zero where nothing was committed.
pub record Turn : Type 0 where
  pub decision_model : String
  pub decision_provider : String
  pub status : ℕ
  pub is_error : Bool

-- How a turn ends: an error for the caller, or a response of a deployment that is handed on.
pub data Outcome : Type 0 where
  failed : Error → Outcome
  committed : Deployment → (status : ℕ) → ResponseBody → Outcome

-- An outcome, the turns recorded and the deployments called, in order.
pub record Report : Type 0 where
  pub outcome : Outcome
  pub turns : List Turn
  pub called : List Deployment

unfoldable pub build_route_request : ChatRequest → RequestCtx → RouteRequest
unfolding union estimate_tokens has_images
build_route_request c ctx = record {
  requested_model = c.model;
  estimated_input_tokens = estimate_tokens c;
  has_tools = not (is_nil c.tools);
  has_images = has_images c;
  excluded_model_ids = union ctx.excluded_model_ids ctx.access.denied_model_ids;
  enabled_provider_ids =
      if is_nil ctx.access.allowed_provider_ids then none else some ctx.access.allowed_provider_ids;
  denied_provider_ids = union ctx.excluded_provider_ids ctx.access.denied_provider_ids;
  preferred_models = [];
}

unfoldable pub may_serve : RequestCtx → Deployment → Bool
unfolding permits_model permits_provider contains
may_serve ctx d =
    if not (permits_model ctx.access d.model_id) || not (permits_provider ctx.access d.provider_id)
    then false
    else not (contains d.model_id ctx.excluded_model_ids)
      && not (contains d.provider_id ctx.excluded_provider_ids)

unfoldable pub filter_access : List Deployment → RequestCtx → List Deployment
unfolding select may_serve
filter_access candidates ctx = select (may_serve ctx) candidates

unfoldable pub extra_headers : Option (String × String) → Extra → List (String × String)
unfolding cloudflare_access_headers to_ascii_lowercase
extra_headers cf_access extra =
    (if extra.cloudflare_access
      then elim cf_access [
        | some (client_id, client_secret) ↦ cloudflare_access_headers client_id client_secret
        | none ↦ []
      ]
      else [])
    ++ map (λ (k, v). (to_ascii_lowercase k, v)) extra.headers

-- The request that is sent to a deployment, from the body and the headers of the translator.
unfoldable pub upstream_request :
    Services → WireFormat → Deployment → String × List (String × String) → UpstreamRequest
unfolding build_url auth_headers append_headers extra_headers
upstream_request s fmt d (body, headers) = record {
  url = build_url fmt d.api_base d.upstream_model true;
  method = post;
  headers =
      append_headers (headers ++ auth_headers s.env fmt (unwrap_or d.api_key ""))
        (extra_headers s.cf_access d.extra);
  body = body;
  stream = true;
}

-- What `TurnGuard::record` writes for a turn without a committed response.
unfoldable pub uncommitted : ChatRequest → ℕ → Turn
uncommitted c status = record {
  decision_model = c.model;
  decision_provider = "none";
  status = status;
  is_error = true;
}

-- `TurnGuard::fail`, and the error given back.
unfoldable pub fail : ChatRequest → Error → Report
unfolding uncommitted http_status
fail c e = record { outcome = failed e; turns = uncommitted c (http_status e) ∷ []; called = [] }

abbrev join_text : String → String → String
join_text s t = String.◌++◌ s t

-- The error when all candidates are used up.
unfoldable pub exhausted : ChatRequest → Bool → Option Error → Error
exhausted c saw_embed_only last_err =
    if saw_embed_only
    then bad_request (
        join_text "model "
          (join_text c.model " is an embeddings model; use an embeddings endpoint"))
    else unwrap_or last_err (no_eligible_provider c.model)

-- What one round of the loop does: it passes over the deployment, it notes an error and goes on, the
-- translator refuses the request, or the deployment's answer ends the loop.
pub data Attempt : Type 0 where
  skipped : Attempt
  next : Error → Attempt
  refused : Error → Attempt
  returned : Outcome → List Turn → Attempt

-- A success: a body that came in one piece is parsed first.
unfoldable pub commit : Services → WireFormat → Deployment → ℕ → ResponseBody → Attempt
commit s fmt d status (streamed body) = returned (committed d status (streamed body)) []
commit s fmt d status (full body) = elim (s.parse_response fmt body) [
  | err e ↦ returned (failed e) []
  | ok response ↦ returned (committed d status (full body)) []
]

-- The answer of a deployment.
unfoldable pub settle : Services → WireFormat → Deployment → Sent → Attempt
unfolding is_retryable is_model_not_found commit read_body_message
settle s fmt d (unreachable e) = next e
settle s fmt d (answered status body) =
    if leb 200 status && ltb status 300
    then commit s fmt d status body
    else let e = upstream d.provider status (read_body_message body) in
      if is_retryable status || is_model_not_found status
      then next e
      else returned (failed e) (
          record {
            decision_model = d.model_name;
            decision_provider = d.provider;
            status = status;
            is_error = true;
          }
          ∷ [])

unfoldable pub attempt_chat : Services → ChatRequest → Deployment → WireFormat → Attempt
unfolding settle upstream_request
attempt_chat s c d fmt = elim (s.emit_request fmt c d.upstream_model) [
  | err e ↦ refused e
  | ok emitted ↦ settle s fmt d (s.send (upstream_request s fmt d emitted))
]

-- Only the deployments of a chat format are called.
unfoldable pub attempt : Services → ChatRequest → Deployment → Attempt
unfolding attempt_chat
attempt s c d = elim d.upstream_format [
  | chat fmt ↦ attempt_chat s c d fmt
  | embed fmt ↦ skipped
  | media fmt ↦ skipped
]

abbrev pub after : Deployment → Report → Report
after d r = record r { called = d ∷ r.called }

unfoldable pub dispatch : Services → ChatRequest → List Deployment → Bool → Option Error → Report
unfolding fail exhausted attempt
dispatch s c [] saw_embed_only last_err = fail c (exhausted c saw_embed_only last_err)
dispatch s c (d ∷ ds) saw_embed_only last_err = elim (attempt s c d) [
  | skipped ↦ dispatch s c ds saw_embed_only last_err
  | next e ↦ after d (dispatch s c ds false (some e))
  | refused e ↦ fail c e
  | returned outcome turns ↦ record { outcome = outcome; turns = turns; called = d ∷ [] }
]

-- A routing failure is recorded; otherwise the candidates that the caller may use are tried.
unfoldable pub serve : Services → ChatRequest → RequestCtx → Result Decision → Report
unfolding fail filter_access dispatch
serve s c ctx (err e) = fail c e
serve s c ctx (ok decision) =
    let candidates = filter_access decision.candidates ctx in
    if is_nil candidates
    then fail c (no_eligible_provider c.model)
    else dispatch s c candidates true none

-- `handle`, after the request is parsed: the turn and the router afterwards.
unfoldable pub handle : Services → Floats → ChatRequest → RequestCtx → Router → Report × Router
unfolding resolve build_route_request serve
handle s f c ctx r =
    let (decision, r') = resolve f (build_route_request c ctx) r in (serve s c ctx decision, r')
