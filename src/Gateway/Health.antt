-- ===== src/Gateway/Health.antt =====
-- crates/yb-gateway/src/health.rs: the check of a deployment's health. The HTTP client with its timeout, the
-- clock, the environment, the text of an error and what the translators emit for the request of a probe
-- are parameters, the record `Checks`.
pub mod Reports
use mathlib.Core.List
use mathlib.Core.Option
use sovereign_gateway.Base.{
  ℕ, String, Bool, false, true, ◌&&◌, ◌||◌, Option, none, some, List, ltb, leb, eqb, if◌then◌else◌,
  unwrap_or, map,
}
use Prim.Native.String.{[], ◌∷◌, ◌++◌}
use Prim.Native.Char.{code}
use sovereign_gateway.Base.Text.{strip_prefix, starts_with}
use sovereign_gateway.Core.Errors.{Error, Result, ok, err}
use sovereign_gateway.Core.Formats.{
  WireFormat, EmbedFormat, chat, embed, media, unchecked, http_ok, models_list, probe, media_str,
  upstream_str, health_str,
}
use sovereign_gateway.Core.Deployments.{DeploymentRecord}
use sovereign_gateway.Gateway.Bodies.{read_body_message, take_chars}
use sovereign_gateway.Gateway.Dispatch.{
  UpstreamRequest, get, post, Sent, unreachable, answered, extra_headers,
}
use sovereign_gateway.Upstream.Headers.{
  auth_headers, embed_auth_headers, media_auth_headers, append_headers,
}
use sovereign_gateway.Upstream.Urls.{
  build_url, build_embed_url, models_list_url_for, trim_base, listed, unlisted,
}

-- An emission gives a body and headers for a model's name; a `send` that gives nothing has timed out.
pub record Checks : Type 0 where
  pub env : String → Option String
  pub cf_access : Option (String × String)
  pub error_text : Error → String
  pub emit_chat_probe : WireFormat → String → Result (String × List (String × String))
  pub emit_embed_probe : EmbedFormat → String → Result (String × List (String × String))
  pub send : UpstreamRequest → Option Sent
  pub elapsed_ms : ℕ

pub record HealthReport : Type 0 where
  pub deployment_id : String
  pub model_name : String
  pub provider : String
  pub upstream_format : String
  pub check : String
  pub healthy : Bool
  pub status : Option ℕ
  pub latency_ms : ℕ
  pub detail : Option String

-- What a check has to send: nothing, a request, or why there is none.
pub data Prepared : Type 0 where
  unneeded : Prepared
  ready : UpstreamRequest → Prepared
  refused : String → Prepared

-- A text up to its first "://", with it, and what follows.
unfoldable pub after_scheme : String → Option (String × String)
unfolding strip_prefix
after_scheme [] = none
after_scheme (c ∷ t) =
    let later = Option.map (λ (scheme, rest). (c ∷ scheme, rest)) (after_scheme t) in
    elim (strip_prefix "://" (c ∷ t)) [ some rest ↦ some ("://", rest) | none ↦ later ]

-- A text up to its first slash.
unfoldable pub before_slash : String → Option String
before_slash [] = none
before_slash (c ∷ t) =
    let later = Option.map (λ host. c ∷ host) (before_slash t) in
    if eqb (code c) 47 then some "" else later

unfoldable pub origin_of : String → String
unfolding after_scheme before_slash trim_base
origin_of url = elim (after_scheme url) [
  | none ↦ trim_base url
  | some (scheme, rest) ↦ elim (before_slash rest) [
    | none ↦ trim_base url
    | some host ↦ scheme ++ host
  ]
]

unfoldable pub check_auth :
    Checks → DeploymentRecord → List (String × String) → List (String × String)
unfolding auth_headers embed_auth_headers media_auth_headers append_headers
check_auth k dep extra =
    let api_key = unwrap_or dep.api_key "" in
    append_headers
      (elim dep.upstream_format [
        | chat f ↦ auth_headers k.env f api_key
        | embed f ↦ embed_auth_headers k.env f api_key
        | media f ↦ media_auth_headers k.env api_key
      ])
      extra

abbrev pub get_request : String → List (String × String) → Prepared
get_request url headers =
    ready (record { url = url; method = get; headers = headers; body = ""; stream = false })

unfoldable pub http_ok_request : DeploymentRecord → List (String × String) → Prepared
unfolding starts_with origin_of
http_ok_request dep auth =
    let from_base : Prepared = elim dep.api_base [
      | none ↦ refused "http_ok needs api_base or an absolute health_path"
      | some base ↦ get_request (origin_of base ++ unwrap_or dep.health_path "/") auth
    ] in
    elim dep.health_path [
      | none ↦ from_base
      | some p ↦
          if starts_with "http://" p || starts_with "https://" p
          then get_request p auth
          else from_base
    ]

unfoldable pub models_list_request : DeploymentRecord → List (String × String) → Prepared
unfolding models_list_url_for
models_list_request dep auth = elim (models_list_url_for dep.upstream_format dep.api_base) [
  | listed url ↦ get_request url auth
  | unlisted detail ↦ refused detail
]

unfoldable pub probe_with :
    Checks → String → List (String × String) → Result (String × List (String × String)) → Prepared
probe_with k url auth (err e) = refused ("probe emit: " ++ k.error_text e)
probe_with k url auth (ok (body, headers)) = ready (record {
  url = url;
  method = post;
  headers = List.◌++◌ headers auth;
  body = body;
  stream = false;
})

unfoldable pub probe_request : Checks → DeploymentRecord → List (String × String) → Prepared
unfolding probe_with build_url build_embed_url media_str
probe_request k dep auth = elim dep.upstream_format [
  | chat f ↦
      probe_with k (build_url f dep.api_base dep.upstream_model false) auth
        (k.emit_chat_probe f dep.upstream_model)
  | embed f ↦
      probe_with k (build_embed_url f dep.api_base dep.upstream_model) auth
        (k.emit_embed_probe f dep.upstream_model)
  | media f ↦ refused (
      "a probe check is not available for "
      ++ media_str f
      ++ " deployments; use http_ok or models_list")
]

unfoldable pub build_check_request : Checks → DeploymentRecord → List (String × String) → Prepared
unfolding check_auth http_ok_request models_list_request probe_request
build_check_request k dep extra =
    let auth = check_auth k dep extra in
    elim dep.health_check [
      | unchecked ↦ unneeded
      | http_ok ↦ http_ok_request dep auth
      | models_list ↦ models_list_request dep auth
      | probe ↦ probe_request k dep auth
    ]

unfoldable pub new_report : DeploymentRecord → HealthReport
unfolding upstream_str health_str
new_report dep = record {
  deployment_id = dep.id;
  model_name = dep.model_name;
  provider = dep.provider;
  upstream_format = upstream_str dep.upstream_format;
  check = health_str dep.health_check;
  healthy = false;
  status = none;
  latency_ms = 0;
  detail = none;
}

abbrev pub is_success : ℕ → Bool
is_success status = leb 200 status && ltb status 300

unfoldable pub report_answer : Checks → HealthReport → Option Sent → HealthReport
unfolding read_body_message take_chars
report_answer k report none = record report { detail = some "timed out after 15s" }
report_answer k report (some (unreachable e)) = record report {
  detail = some ("transport: " ++ k.error_text e);
}
report_answer k report (some (answered status body)) = record report {
  status = some status;
  healthy = is_success status;
  detail =
      if is_success status then report.detail else some (take_chars 300 (read_body_message body));
}

unfoldable pub report_check : Checks → HealthReport → Prepared → HealthReport
unfolding report_answer
report_check k report unneeded = record report {
  healthy = true;
  detail = some "no health check configured";
}
report_check k report (refused detail) = record report { detail = some detail }
report_check k report (ready request) = record (report_answer k report (k.send request)) {
  latency_ms = k.elapsed_ms;
}

unfoldable pub check_deployment : Checks → DeploymentRecord → HealthReport
unfolding report_check new_report build_check_request extra_headers
check_deployment k dep =
    report_check k (new_report dep)
      (build_check_request k dep (extra_headers k.cf_access dep.extra))

unfoldable pub probe_deployment : Checks → DeploymentRecord → HealthReport
unfolding check_deployment
probe_deployment k dep = check_deployment k (record dep { health_check = probe })

-- The checks run at once; the reports are in the order of the deployments.
unfoldable pub check_deployments : Checks → List DeploymentRecord → List HealthReport
unfolding check_deployment
check_deployments k deps = map (check_deployment k) deps
