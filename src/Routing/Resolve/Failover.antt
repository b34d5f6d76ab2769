-- ===== src/Routing/Resolve/Failover.antt =====
-- The order of the candidates across models, and what a request leaves of the router.
use sovereign_gateway.Core.Errors.{Result, ok, err}
use sovereign_gateway.Routing.Resolve.{resolve, collected_models, Router, collect_all, Key, collect}
use sovereign_gateway.Routing.Resolve.Laws.{finished, start, finished-Collects, start-Sound}
use sovereign_gateway.Core.Deployments.{Decision, RouteRequest, Deployment}
use sovereign_gateway.Routing.Order.{Floats}
use sovereign_gateway.Base.{
  List, ◌≡◌, Bool-cases, ◌++◌, [], is_nil, inl, sym, inr, refl, unwrap_or, ap, ◌∙◌, any,
}
use sovereign_gateway.Routing.Resolve.Ordered.{SameTable, allowed_of, nil_of_is_nil}
use sovereign_gateway.Routing.Resolve.Entries.{has_key}
use sovereign_gateway.Routing.Table.{canonical}
use sovereign_gateway.Base.Assoc.{lookup}
use sovereign_gateway.Routing.Resolve.Collecting.{Collects-collect, Collects-collect_all}

abbrev answered : Result Decision → List Deployment
answered (ok d) = d.candidates
answered (err e) = []

answered-resolve :
    (f : Floats) (req : RouteRequest) (r : Router)
    → answered (resolve f req r).0 ≡ (finished f req r).out
unfolding resolve finished
answered-resolve f req r = elim (Bool-cases (is_nil (finished f req r).out)) [
  | inl e ↦ rw e (sym (nil_of_is_nil (finished f req r).out e))
  | inr e ↦ rw e refl
]

-- The model's own candidates come before those of its fallbacks: the candidates are a first part,
-- with exactly the keys of the deployments of the canonical model that the request's filters allow,
-- and then the candidates that the fallbacks add.
pub resolve_primary_first :
    (f : Floats) (req : RouteRequest) (r : Router) (d : Decision)
    → (resolve f req r).0 ≡ ok d
    → (primary : List Deployment) × (rest : List Deployment) × (d.candidates ≡ primary ++ rest)
      × ((k : Key)
          → has_key k primary
            ≡ has_key k
                (allowed_of req r.snapshot.models (canonical r.snapshot req.requested_model)))
unfolding finished start collected_models collect_all
resolve_primary_first f req r d h =
    let st = r.snapshot.strategy in
    let model = canonical r.snapshot req.requested_model in
    let fallbacks = unwrap_or (lookup model r.snapshot.fallbacks) [] in
    let q = collect f st req model (start r) in
    let first = Collects-collect f st req model (start r) in
    let later = Collects-collect_all f st req fallbacks q in
    (
      q.out,
      later.grows.0,
      sym (ap answered h) ∙ (answered-resolve f req r ∙ later.grows.1),
      λ k. first.keys (start-Sound (λ _. Unit {0}) r) k ∙ unfold any in refl,
    )

-- A request changes no more of the router than its counters: the deployments of every model, the
-- fallbacks, the aliases and the strategy stay.
pub resolve_keeps :
    (f : Floats) (req : RouteRequest) (r : Router)
    → let r' = (resolve f req r).1 in
      SameTable r'.snapshot.models r.snapshot.models
      × (r'.snapshot.fallbacks ≡ r.snapshot.fallbacks)
      × (r'.snapshot.aliases ≡ r.snapshot.aliases)
      × (r'.snapshot.strategy ≡ r.snapshot.strategy)
unfolding resolve finished start
resolve_keeps f req r =
    let same = (finished-Collects f req r).same_table in
    elim (Bool-cases (is_nil (finished f req r).out)) [
      | inl e ↦ rw e (same, refl, refl, refl)
      | inr e ↦ rw e (same, refl, refl, refl)
    ]
