-- ===== src/Gateway/Dispatch/Access.antt =====
-- A turn calls only what its caller may use (crates/yb-gateway/src/service.rs, `filter_access`).
use sovereign_gateway.Base.{
  ◌≡◌, refl, inl, inr, Bool, true, false, Option, none, some, List, [], ◌∷◌, arith, Bool-cases, All,
  is_nil, select, contains,
}
use sovereign_gateway.Routing.Resolve.{Router, resolve}
use sovereign_gateway.Routing.Order.{Floats}
use sovereign_gateway.Wire.Request.{ChatRequest}
use sovereign_gateway.Core.Access.{permits_model, permits_provider}
use sovereign_gateway.Core.Deployments.{Deployment, Decision}
use sovereign_gateway.Core.Errors.{Error, Result, ok, err}
use sovereign_gateway.Gateway.Dispatch.{
  build_route_request, RequestCtx, Services, may_serve, filter_access, fail, Attempt, skipped, next,
  refused, returned, attempt, dispatch, serve, handle,
}

pub filter_access-permitted :
    (ctx : RequestCtx) (ds : List Deployment)
    → All (λ d. may_serve ctx d ≡ true) (filter_access ds ctx)
unfolding filter_access select
filter_access-permitted ctx [] = tt
filter_access-permitted ctx (d ∷ ds) = elim (Bool-cases (may_serve ctx d)) [
  | inl q ↦ rw q (q, filter_access-permitted ctx ds)
  | inr q ↦ rw q (filter_access-permitted ctx ds)
]

pub All-map :
    {P Q : Deployment → Type 0}
    → ((d : Deployment) → P d → Q d)
    → (ds : List Deployment) → All P ds
    → All Q ds
All-map f [] h = tt
All-map f (d ∷ ds) (h, hs) = (f d h, All-map f ds hs)

abbrev pub IsPermitted : RequestCtx → Deployment → Type 0
IsPermitted ctx d =
    (permits_model ctx.access d.model_id ≡ true)
    × (permits_provider ctx.access d.provider_id ≡ true)
    × (contains d.model_id ctx.excluded_model_ids ≡ false)
    × (contains d.provider_id ctx.excluded_provider_ids ≡ false)

pub may_serve-permits :
    (ctx : RequestCtx) (d : Deployment) → may_serve ctx d ≡ true → IsPermitted ctx d
unfolding may_serve
may_serve-permits ctx d h =
    (ground (arith, h), ground (arith, h), ground (arith, h), ground (arith, h))

module _ (s : Services) (c : ChatRequest) where
  -- Only candidates are called.
  dispatch-called :
      (P : Deployment → Type 0) (ds : List Deployment) (embed_only : Bool) (last : Option Error)
      → All P ds
      → All P (dispatch s c ds embed_only last).called
  unfolding dispatch
  dispatch-called P [] embed_only last h = tt
  dispatch-called P (d ∷ ds) embed_only last (h, hs) =
      go (attempt s c d) refl (λ b l. dispatch-called P ds b l hs)
    where
      go :
          (a : Attempt)
          → attempt s c d ≡ a
          → ((b : Bool) (l : Option Error) → All P (dispatch s c ds b l).called)
          → All P (dispatch s c (d ∷ ds) embed_only last).called
      go skipped q again = rw (dispatch, q) (again embed_only last)
      go (next e) q again = rw (dispatch, q) (h, again false (some e))
      go (refused e) q again = rw (dispatch, q) tt
      go (returned o ts) q again = rw (dispatch, q) (h, tt)

  serve-called :
      (ctx : RequestCtx) (a : Result Decision)
      → All (λ d. may_serve ctx d ≡ true) (serve s c ctx a).called
  unfolding serve fail
  serve-called ctx (err e) = tt
  serve-called ctx (ok decision) =
      elim (Bool-cases (is_nil (filter_access decision.candidates ctx))) [
        | inl q ↦ rw q tt
        | inr q ↦ rw q (
            dispatch-called (λ d. may_serve ctx d ≡ true) (filter_access decision.candidates ctx)
              true none (filter_access-permitted ctx decision.candidates))
      ]

-- However routing decides and whatever the upstreams answer, each deployment that a turn calls is one
-- whose model and provider the caller's access policy permits and the request does not exclude.
pub handle-called :
    (s : Services) (f : Floats) (c : ChatRequest) (ctx : RequestCtx) (r : Router)
    → All
        (λ d.
          (permits_model ctx.access d.model_id ≡ true)
          × (permits_provider ctx.access d.provider_id ≡ true)
          × (contains d.model_id ctx.excluded_model_ids ≡ false)
          × (contains d.provider_id ctx.excluded_provider_ids ≡ false))
        (handle s f c ctx r).0.called
unfolding handle
handle-called s f c ctx r =
    All-map (may_serve-permits ctx) _
      (serve-called s c ctx (resolve f (build_route_request c ctx) r).0)
