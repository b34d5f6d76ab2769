-- ===== src/Routing/Resolve.antt =====
-- crates/yb-gateway/src/router.rs, `collect`, `resolve`, `serving` and `reload`: the deployments of
-- the requested model and of its fallbacks, filtered, ordered and without duplicates. The router's
-- lock gives each call one snapshot, which `resolve` leaves as it is but for the counters.
pub mod Entries
pub mod Ordered
pub mod Collecting
pub mod Laws
pub mod Failover
pub mod Reload
use sovereign_gateway.Base.{
  ℕ, zero, suc, ◌+◌, ◌-◌, ◌*◌, ◌%◌, ◌≤◌, ◌<◌, String, ◌≡◌, ◌≢◌, refl, sym, ap, ◌∙◌, ◌↔◌, ◌⊎◌, inl,
  inr, Bool, true, false, not, ◌&&◌, ◌||◌, Option, none, some, List, [], ◌∷◌, ◌++◌, map, ◌==◌,
  eq_iff, eq_refl, arith, ltb, leb, eqb, if◌then◌else◌, Bool-cases, Option-cases, All, All-append,
  length, is_nil, select, contains, any, unwrap_or, or_else,
}
use Prim.Native.String.{◌++◌ as cat}
use sovereign_gateway.Routing.Table.{
  Snapshot, ModelEntry, Strategy, canonical, build, simple, round_robin, least_busy,
}
use sovereign_gateway.Core.Deployments.{
  RouteRequest, Deployment, to_deployment, Decision, DeploymentRecord,
}
use sovereign_gateway.Routing.Order.{Floats, order}
use sovereign_gateway.Base.Text.{show, join}
use sovereign_gateway.Core.Formats.{UpstreamFormat-discrete, UpstreamFormat}
use sovereign_gateway.Base.Assoc.{lookup, modify}
use sovereign_gateway.Core.Errors.{Result, err, no_eligible_provider, ok}
use mathlib.Core.Bool.{decide}
use mathlib.Core.List.{flat_map}

pub record Router : Type 0 where
  pub snapshot : Snapshot
  pub rng : ℕ

-- The three `continue`s of the filter.
unfoldable pub is_allowed : RouteRequest → Deployment → Bool
unfolding contains
is_allowed req d =
    if contains d.model_id req.excluded_model_ids
    then false
    else if elim req.enabled_provider_ids [
      | none ↦ false
      | some enabled ↦ not (contains d.provider_id enabled)
    ]
    then false
    else if contains d.provider_id req.denied_provider_ids
    then false
    else true

-- The indices of the deployments that pass, counted from `i`.
unfoldable pub survivors_from : ℕ → RouteRequest → List Deployment → List ℕ
unfolding is_allowed
survivors_from i req [] = []
survivors_from i req (d ∷ ds) =
    let rest = survivors_from (suc i) req ds in if is_allowed req d then i ∷ rest else rest

-- The provider, the upstream model and the model of a deployment, by which duplicates are known.
abbrev pub Key : Type 0
Key = String × String × String

abbrev pub key : Deployment → Key
key d = (d.provider_id, d.upstream_model, d.model_id)

abbrev pub same_key : Key → Key → Bool
same_key j k = j.0 == k.0 && j.1 == k.1 && j.2 == k.2

unfoldable pub seen_before : Key → List Key → Bool
seen_before k [] = false
seen_before k (j ∷ seen) = same_key j k || seen_before k seen

-- What `collect` changes: the counters in the table, the generator, the answer and the keys in it.
pub record Progress : Type 0 where
  pub models : List (String × ModelEntry)
  pub rng : ℕ
  pub out : List Deployment
  pub seen : List Key

unfoldable pub push_new : List Deployment → Progress → Progress
unfolding seen_before
push_new [] p = p
push_new (d ∷ ds) p = push_new ds (
    if seen_before (key d) p.seen
    then p
    else record p { out = p.out ++ d ∷ []; seen = key d ∷ p.seen })

module _ (f : Floats) (strategy : Strategy) (req : RouteRequest) where
  unfoldable pub collect_entry : String → ModelEntry → Progress → Progress
  unfolding survivors_from order modify push_new
  collect_entry model entry p =
      let survivors = survivors_from 0 req entry.deployments in
      if is_nil survivors
      then p
      else let (ds, entry', rng') = order f strategy p.rng entry survivors in
        push_new ds (record p { models = modify model (λ _. entry') p.models; rng = rng' })

  unfoldable pub collect : String → Progress → Progress
  unfolding collect_entry lookup
  collect model p = elim (lookup model p.models) [
    | none ↦ p
    | some entry ↦ collect_entry model entry p
  ]

  unfoldable pub collect_all : List String → Progress → Progress
  unfolding collect
  collect_all [] p = p
  collect_all (model ∷ models) p = collect_all models (collect model p)

unfoldable pub strategy_name : Strategy → String
strategy_name simple = "simple"
strategy_name round_robin = "round_robin"
strategy_name least_busy = "least_busy"

-- The models that are collected: the canonical one, and then its fallbacks by their own names.
unfoldable pub collected_models : Snapshot → RouteRequest → List String
unfolding canonical lookup
collected_models s req =
    let model = canonical s req.requested_model in model ∷ unwrap_or (lookup model s.fallbacks) []

unfoldable pub resolve : Floats → RouteRequest → Router → Result Decision × Router
unfolding collect_all collected_models strategy_name show
resolve f req r =
    let p =
      collect_all f r.snapshot.strategy req (collected_models r.snapshot req)
        (record { models = r.snapshot.models; rng = r.rng; out = []; seen = [] }) in
    let snapshot' = record (r.snapshot) { models = p.models } in
    let r' : Router = record { snapshot = snapshot'; rng = p.rng } in
    if is_nil p.out then (err (no_eligible_provider req.requested_model), r') else (
      ok (record {
        candidates = p.out;
        reason = join "" (
            "resolved '"
            ∷ req.requested_model
            ∷ "' to "
            ∷ show (length p.out)
            ∷ " candidate(s) via "
            ∷ strategy_name r.snapshot.strategy
            ∷ " strategy"
            ∷ []);
      }),
      r',
    )

-- Every deployment of a format and an upstream model, in the order of the table.
unfoldable pub serving : UpstreamFormat → String → Router → List Deployment
unfolding select UpstreamFormat-discrete
serving format upstream_model r =
    select
      (λ d.
        decide (UpstreamFormat-discrete d.upstream_format format)
        && d.upstream_model == upstream_model)
      (flat_map (λ (e : String × ModelEntry). e.1.deployments) r.snapshot.models)

-- A new table in place of the old, under the same strategy and fallbacks.
unfoldable pub reload : List DeploymentRecord → List (String × String) → Router → Router
unfolding build to_deployment
reload records aliases r = record r {
  snapshot = build (map to_deployment records) r.snapshot.fallbacks aliases r.snapshot.strategy;
}
