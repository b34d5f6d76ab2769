-- ===== src/Core/Deployments.antt =====
-- crates/yb-core/src/routing.rs and catalog.rs: deployments, the rows that store them, and the
-- request and the answer of routing. An `f64` is its 64 bits, as a number; a `Timestamp` is its
-- number of nanoseconds since 1970; a sorted map is the list of its entries.
use sovereign_gateway.Base.{ℕ, String, Bool, not, ◌&&◌, List, Option, is_nil}
use sovereign_gateway.Core.Formats.{UpstreamFormat, HealthCheck}
use sovereign_gateway.Core.Json.{Value}

pub record ModelPrice : Type 0 where
  pub input_per_1m : ℕ
  pub output_per_1m : ℕ
  pub cache_read_multiplier : ℕ
  pub cache_write_multiplier : ℕ

pub record Extra : Type 0 where
  pub cloudflare_access : Bool
  pub headers : List (String × String)
  pub vision : Bool
  pub rest : List (String × Value)

unfoldable pub is_empty : Extra → Bool
is_empty e = not e.cloudflare_access && is_nil e.headers && is_nil e.rest

pub record Deployment : Type 0 where
  pub model_id : String
  pub model_name : String
  pub provider_id : String
  pub provider : String
  pub upstream_model : String
  pub api_base : Option String
  pub api_key : Option String
  pub upstream_format : UpstreamFormat
  pub weight : ℕ
  pub pricing : Option ModelPrice
  pub health_check : HealthCheck
  pub health_path : Option String
  pub extra : Extra

pub record DeploymentRecord : Type 0 where
  pub id : String
  pub model_id : String
  pub model_name : String
  pub provider_id : String
  pub provider : String
  pub upstream_model : String
  pub api_base : Option String
  pub api_key : Option String
  pub upstream_format : UpstreamFormat
  pub weight : ℕ
  pub pricing : Option ModelPrice
  pub health_check : HealthCheck
  pub health_path : Option String
  pub extra : Extra
  pub created_at : ℕ
  pub updated_at : ℕ
  pub deleted_at : Option ℕ

unfoldable pub to_deployment : DeploymentRecord → Deployment
to_deployment r = record {
  model_id = r.model_id;
  model_name = r.model_name;
  provider_id = r.provider_id;
  provider = r.provider;
  upstream_model = r.upstream_model;
  api_base = r.api_base;
  api_key = r.api_key;
  upstream_format = r.upstream_format;
  weight = r.weight;
  pricing = r.pricing;
  health_check = r.health_check;
  health_path = r.health_path;
  extra = r.extra;
}

pub record RouteRequest : Type 0 where
  pub requested_model : String
  pub estimated_input_tokens : ℕ
  pub has_tools : Bool
  pub has_images : Bool
  pub excluded_model_ids : List String
  pub enabled_provider_ids : Option (List String)
  pub denied_provider_ids : List String
  pub preferred_models : List String

pub record Decision : Type 0 where
  pub candidates : List Deployment
  pub reason : String
