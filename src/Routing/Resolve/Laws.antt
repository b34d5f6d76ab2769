-- ===== src/Routing/Resolve/Laws.antt =====
-- What `resolve` answers: the allowed deployments of the canonical model and its fallbacks, each key
-- once, or an error when there are none; and what it leaves of the router.
use sovereign_gateway.Base.{
  String, ◌≡◌, ◌≢◌, refl, sym, ap, ◌∙◌, inl, inr, Bool, true, List, [], ◌∷◌, eq_refl, arith,
  Bool-cases, All, All-append, is_nil, select, any, All-of_mem, All-mem,
}
use sovereign_gateway.Core.Deployments.{RouteRequest, Deployment, Decision}
use sovereign_gateway.Routing.Resolve.{
  Router, seen_before, resolve, Progress, is_allowed, Key, collected_models, collect_all, same_key,
  key,
}
use sovereign_gateway.Routing.Order.{Floats}
use sovereign_gateway.Routing.Resolve.Collecting.{allowed_of_all, Collects, Collects-collect_all}
use sovereign_gateway.Routing.Resolve.Entries.{Sound, Distinct, has_key}
use sovereign_gateway.Routing.Table.{ModelEntry}
use sovereign_gateway.Core.Errors.{Result, ok, err, no_eligible_provider}
use sovereign_gateway.Routing.Resolve.Ordered.{
  allowed_of, deployments_of, ne-nil_of_is_nil, nil_of_is_nil,
}
use mathlib.Core.List.{Mem}
use mathlib.Core.HLevel.{×_prop}
use mathlib.Core.Bool.{Bool-set}
use mathlib.Core.Logic.{∥∥₁_prop}

-- The deployments that a request may be served by: those of the canonical model and then of its
-- fallbacks that the request's filters allow.
abbrev pub eligible : RouteRequest → Router → List Deployment
eligible req r = allowed_of_all req r.snapshot.models (collected_models r.snapshot req)

unfoldable pub start : Router → Progress
start r = record { models = r.snapshot.models; rng = r.rng; out = []; seen = [] }

unfoldable pub finished : Floats → RouteRequest → Router → Progress
unfolding start
finished f req r = collect_all f r.snapshot.strategy req (collected_models r.snapshot req) (start r)

pub start-Sound : (P : Deployment → Type 0) (r : Router) → Sound P (start r)
unfolding start seen_before any
start-Sound P r = record { tracks = λ k. refl; distinct = tt; all = tt }

pub finished-Collects :
    (f : Floats) (req : RouteRequest) (r : Router)
    → Collects (eligible req r) (start r) (finished f req r)
unfolding start finished
finished-Collects f req r =
    Collects-collect_all f r.snapshot.strategy req (collected_models r.snapshot req) (start r)

select-All : (p : Deployment → Bool) (xs : List Deployment) → All (λ d. p d ≡ true) (select p xs)
unfolding select
select-All p [] = tt
select-All p (x ∷ xs) = ground (arith, select-All p xs)

allowed_of_all-All :
    (req : RouteRequest) (models : List (String × ModelEntry)) (names : List String)
    → All (λ d. is_allowed req d ≡ true) (allowed_of_all req models names)
allowed_of_all-All req models [] = tt
allowed_of_all-All req models (m ∷ names) =
    All-append _ (allowed_of req models m) (allowed_of_all req models names)
      (select-All (is_allowed req) (deployments_of m models)) (allowed_of_all-All req models names)

-- A candidate is one of the eligible deployments, and the request's filters allow it.
abbrev pub IsEligible : RouteRequest → Router → Deployment → Type 0
IsEligible req r d = (is_allowed req d ≡ true) × Mem d (eligible req r)

IsEligible-prop : (req : RouteRequest) (r : Router) (d : Deployment) → IsProp (IsEligible req r d)
IsEligible-prop req r d = ×_prop (Bool-set _ _) ∥∥₁_prop

eligible-IsEligible : (req : RouteRequest) (r : Router) → All (IsEligible req r) (eligible req r)
eligible-IsEligible req r = All-of_mem (IsEligible req r) (eligible req r) λ d m. (
  All-mem (λ d. is_allowed req d ≡ true) (λ d. Bool-set _ _) (eligible req r)
      (allowed_of_all-All req r.snapshot.models (collected_models r.snapshot req)) m,
  m,
)

-- What an answer to a request must be.
pub record Covers (req : RouteRequest) (r : Router) (candidates : List Deployment) : Type 0 where
  pub eligible_only : All (IsEligible req r) candidates
  pub distinct : Distinct candidates
  pub same_keys : (k : Key) → has_key k candidates ≡ has_key k (eligible req r)

finished-Covers :
    (f : Floats) (req : RouteRequest) (r : Router) → Covers req r (finished f req r).out
finished-Covers f req r =
    let c = finished-Collects f req r in
    let s =
      c.sound (IsEligible req r) (IsEligible-prop req r) (eligible-IsEligible req r)
        (start-Sound (IsEligible req r) r) in
    record {
      eligible_only = s.all;
      distinct = s.distinct;
      same_keys = λ k. c.keys (start-Sound (λ _. Unit {0}) r) k ∙ unfold start any in refl;
    }

abbrev pub IsAnswer : RouteRequest → Router → Result Decision → Type 0
IsAnswer req r (ok d) = (d.candidates ≢ []) × Covers req r d.candidates
IsAnswer req r (err e) = (e ≡ no_eligible_provider req.requested_model) × (eligible req r ≡ [])

nil_of_keys : (xs : List Deployment) → ((k : Key) → has_key k [] ≡ has_key k xs) → xs ≡ []
unfolding any
nil_of_keys [] h = refl
nil_of_keys (x ∷ xs) h =
    let itself : same_key (key x) (key x) ≡ true = simp (eq_refl) in ground (arith, h (key x))

-- Resolving a request answers with a non-empty list of candidates, each an eligible deployment that
-- the request's filters allow, no two of them with the same provider, upstream model and model, and
-- every eligible deployment represented by such a key; or with the error that no provider is
-- eligible, and then no deployment is.
pub resolve-IsAnswer :
    (f : Floats) (req : RouteRequest) (r : Router) → IsAnswer req r (resolve f req r).0
unfolding resolve finished start
resolve-IsAnswer f req r = elim (Bool-cases (is_nil (finished f req r).out)) [
  | inl e ↦
      let keys = (finished-Covers f req r).same_keys in
      rw e (
        refl,
        nil_of_keys (eligible req r)
            (λ k. sym (ap (has_key k) (nil_of_is_nil (finished f req r).out e)) ∙ keys k),
      )
  | inr e ↦ rw e (ne-nil_of_is_nil (finished f req r).out e, finished-Covers f req r)
]
