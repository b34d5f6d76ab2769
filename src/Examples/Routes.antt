-- ===== src/Examples/Routes.antt =====
-- Routing in a small gateway.
use sovereign_gateway.Base.{ℕ, ◌≡◌, ◌≢◌, refl, List, [], ◌∷◌, arith, select, contains}
use sovereign_gateway.Base.Assoc.{lookup, modify}
use sovereign_gateway.Examples.{floats, first, second, backup, router, route}
use sovereign_gateway.Core.Deployments.{Decision}
use sovereign_gateway.Core.Errors.{ok}
use sovereign_gateway.Routing.Order.{order, order_indices, pick}
use sovereign_gateway.Routing.Order.Laws.{order-perm}
use sovereign_gateway.Routing.Table.{
  build, least_busy, simple, canonical, ModelEntry, canonical_from,
}
use sovereign_gateway.Routing.Table.Aliases.{canonical-Reached, Reached}
use sovereign_gateway.Routing.Table.Laws.{build-stored, stored, IsCounted}
use sovereign_gateway.Routing.Resolve.{
  resolve, collected_models, collect_all, collect, is_allowed, collect_entry, survivors_from,
  push_new, seen_before, strategy_name,
}
use sovereign_gateway.Routing.Resolve.Laws.{resolve-IsAnswer, IsAnswer, eligible}
use mathlib.Core.List.{Perm}
use sovereign_gateway.Base.Text.{show, join}

resolve-IsAnswer_example : IsAnswer route router (resolve floats route router).0
resolve-IsAnswer_example = resolve-IsAnswer floats route router

some_eligible : eligible route router ≢ []
unfolding collected_models canonical canonical_from lookup is_allowed contains select
some_eligible = λ h. ground (arith, h)

abbrev both : List ℕ
both = 0 ∷ 1 ∷ []

two-present : both ≢ []
two-present = λ h. ground (arith, h)

abbrev entry : ModelEntry
entry = record { deployments = first ∷ second ∷ []; rr = 1; load = 0 ∷ 0 ∷ [] }

order-perm_example :
    Perm (order floats simple 7 entry both).0 (pick entry.deployments both)
    × ((order floats simple 7 entry both).1.deployments ≡ entry.deployments)
order-perm_example = order-perm floats simple 7 entry both two-present

canonical-Reached_example : Reached (router.snapshot) 8 "fast" (canonical (router.snapshot) "fast")
canonical-Reached_example = canonical-Reached (router.snapshot) "fast"

build-stored_example :
    (stored (lookup "gpt" (build (first ∷ backup ∷ second ∷ []) [] [] least_busy).models)
      ≡ first ∷ second ∷ [])
    × IsCounted (lookup "gpt" (build (first ∷ backup ∷ second ∷ []) [] [] least_busy).models)
unfolding select
build-stored_example = build-stored (first ∷ backup ∷ second ∷ []) [] [] least_busy "gpt"

abbrev decision : Decision
decision = record {
  candidates = second ∷ backup ∷ [];
  reason = "resolved 'fast' to 2 candidate(s) via round_robin strategy";
}

resolved : (resolve floats route router).0 ≡ ok decision
unfolding resolve collect_all collect collect_entry collected_models canonical canonical_from lookup
    modify survivors_from is_allowed contains order order_indices push_new seen_before strategy_name
    show join
resolved = refl
