-- ===== src/Examples/Turns.antt =====
-- A turn of a small gateway whose first upstream is out of order.
use sovereign_gateway.Base.{
  ◌≡◌, refl, true, false, none, [], ◌∷◌, ◌++◌, ◌==◌, if◌then◌else◌, All, contains, some,
}
use sovereign_gateway.Examples.{floats, first, second, backup, router}
use sovereign_gateway.Wire.Response.{text}
use sovereign_gateway.Wire.Request.{ChatRequest, default_request, user}
use sovereign_gateway.Core.Access.{permits_model, permits_provider}
use sovereign_gateway.Core.Errors.{ok}
use sovereign_gateway.Base.Text.{strip_suffix, ends_with}
use sovereign_gateway.Upstream.Urls.{
  build_url, trim_base, join_url, chat_target, is_retryable, is_model_not_found,
}
use sovereign_gateway.Gateway.Dispatch.{
  attempt_chat, settle, commit, upstream_request, RequestCtx, Services, answered, dispatch, attempt,
  committed, handle,
}
use sovereign_gateway.Gateway.Bodies.{full, streamed}
use sovereign_gateway.Gateway.Dispatch.Access.{handle-called}
use sovereign_gateway.Gateway.Dispatch.Records.{handle-IsAccounted, IsAccounted}
use sovereign_gateway.Gateway.Dispatch.Failover.{dispatch-append, dispatch-Commits, Commits, tried}

abbrev request : ChatRequest
request = record default_request {
  model = "fast";
  stream = true;
  messages = record { role = user; content = text "hello" ∷ [] } ∷ [];
}

abbrev ctx : RequestCtx
ctx = record {
  excluded_model_ids = [];
  excluded_provider_ids = "p1" ∷ [];
  access = record {
    allowed_model_ids = [];
    denied_model_ids = [];
    allowed_provider_ids = [];
    denied_provider_ids = [];
  };
}

-- Anthropic's URL answers, every other is out of order.
abbrev services : Services
services = record {
  env = λ name. none;
  cf_access = none;
  emit_request = λ fmt c model. ok ("{}", []);
  send = λ u.
      if u.url == "https://api.anthropic.com/v1/messages"
      then answered 200 (streamed (some "events" ∷ []))
      else answered 503 (full "busy");
  parse_response = λ fmt b. ok b;
}

handle-called_example :
    All
      (λ d.
        (permits_model ctx.access d.model_id ≡ true)
        × (permits_provider ctx.access d.provider_id ≡ true)
        × (contains d.model_id ctx.excluded_model_ids ≡ false)
        × (contains d.provider_id ctx.excluded_provider_ids ≡ false))
      (handle services floats request ctx router).0.called
handle-called_example = handle-called services floats request ctx router

handle-IsAccounted_example :
    IsAccounted services
      (handle services floats request ctx router).0.outcome
      (handle services floats request ctx router).0.turns
handle-IsAccounted_example = handle-IsAccounted services floats request ctx router

dispatch-Commits_example :
    Commits services request
      (first ∷ backup ∷ [])
      (dispatch services request (first ∷ backup ∷ []) true none).outcome
dispatch-Commits_example = dispatch-Commits services request (first ∷ backup ∷ []) true none

dispatch-append_example :
    dispatch services request (first ∷ backup ∷ second ∷ []) true none ≡ record {
      outcome = committed backup 200 (streamed (some "events" ∷ []));
      turns = [];
      called = tried services request (first ∷ []) ++ backup ∷ [];
    }
unfolding attempt attempt_chat settle commit upstream_request build_url trim_base join_url
    chat_target strip_suffix ends_with is_retryable is_model_not_found
dispatch-append_example =
    dispatch-append services request (first ∷ []) (second ∷ []) backup
      (committed backup 200 (streamed (some "events" ∷ []))) [] true none (refl, tt) refl
