-- ===== src/Examples.antt =====
-- Small gateways on which the theorems are used.
pub mod Domain
pub mod Routes
pub mod Limits
pub mod Upstreams
pub mod Turns
pub mod Streams
pub mod Answers
pub mod Redactions
pub mod Checks
pub mod Memory
pub mod Logs
pub mod Forwards
pub mod Bodies
use sovereign_gateway.Base.{
  ℕ, zero, suc, ◌+◌, ◌-◌, ◌*◌, ◌%◌, ◌≤◌, ◌<◌, String, ◌≡◌, ◌≢◌, refl, sym, ap, ◌∙◌, ◌↔◌, ◌⊎◌, inl,
  inr, Bool, true, false, not, ◌&&◌, ◌||◌, Option, none, some, List, [], ◌∷◌, ◌++◌, map, ◌==◌,
  eq_iff, eq_refl, arith, ltb, leb, eqb, if◌then◌else◌, Bool-cases, Option-cases, All, All-append,
  length, is_nil, select, contains, any, unwrap_or, or_else,
}
use Prim.Native.Nat.{compare}
use sovereign_gateway.Core.Deployments.{Deployment, Extra, RouteRequest}
use sovereign_gateway.Core.Formats.{
  chat, openai_chat, anthropic, unchecked, embed, openai_embed, UpstreamFormat,
}
use sovereign_gateway.Routing.Order.{Floats}
use sovereign_gateway.Routing.Table.{Snapshot, ModelEntry, round_robin}
use sovereign_gateway.Routing.Resolve.{Router}

abbrev pub floats : Floats
floats = record { key = λ u w. u * w; partial_cmp = compare }

abbrev pub plain : Extra
plain = record { cloudflare_access = false; headers = []; vision = false; rest = [] }

abbrev pub deployment : String → String → UpstreamFormat → Deployment
deployment model_name provider_id format = record {
  model_id = model_name;
  model_name = model_name;
  provider_id = provider_id;
  provider = provider_id;
  upstream_model = model_name;
  api_base = none;
  api_key = some "secret";
  upstream_format = format;
  weight = 1;
  pricing = none;
  health_check = unchecked;
  health_path = none;
  extra = plain;
}

abbrev pub first : Deployment
first = deployment "gpt" "p1" (chat openai_chat)

abbrev pub second : Deployment
second = deployment "gpt" "p2" (chat openai_chat)

abbrev pub backup : Deployment
backup = deployment "claude" "p3" (chat anthropic)

abbrev pub router : Router
router = record {
  snapshot = record {
    models =
        ("gpt", record { deployments = first ∷ second ∷ []; rr = 1; load = 0 ∷ 0 ∷ [] })
        ∷ ("claude", record { deployments = backup ∷ []; rr = 0; load = 0 ∷ [] })
        ∷ [];
    fallbacks = ("gpt", "claude" ∷ []) ∷ [];
    aliases = ("fast", "gpt") ∷ [];
    strategy = round_robin;
  };
  rng = 7;
}

abbrev pub route : RouteRequest
route = record {
  requested_model = "fast";
  estimated_input_tokens = 10;
  has_tools = false;
  has_images = false;
  excluded_model_ids = [];
  enabled_provider_ids = none;
  denied_provider_ids = "p1" ∷ [];
  preferred_models = [];
}
