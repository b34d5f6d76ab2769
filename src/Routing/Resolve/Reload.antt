-- ===== src/Routing/Resolve/Reload.antt =====
-- What the router serves after a reload (crates/yb-gateway/src/router.rs, `reload`).
use sovereign_gateway.Base.{String, ◌≡◌, refl, List, map}
use sovereign_gateway.Base.Assoc.{lookup}
use sovereign_gateway.Core.Deployments.{DeploymentRecord, to_deployment}
use sovereign_gateway.Routing.Resolve.{Router, reload}
use sovereign_gateway.Routing.Table.{build}
use sovereign_gateway.Routing.Table.Laws.{stored, of_model, build-stored}

-- After a reload each name holds exactly the deployments of the new records with that name, in their
-- order, and the aliases are the new ones; the strategy and the fallbacks stay.
pub reload-stored :
    (records : List DeploymentRecord) (aliases : List (String × String)) (r : Router)
    (name : String)
    → let r' = reload records aliases r in
      (stored (lookup name r'.snapshot.models) ≡ of_model name (map to_deployment records))
      × (r'.snapshot.aliases ≡ aliases)
      × (r'.snapshot.strategy ≡ r.snapshot.strategy)
      × (r'.snapshot.fallbacks ≡ r.snapshot.fallbacks)
unfolding reload build
reload-stored records aliases r name = (
  (build-stored (map to_deployment records) r.snapshot.fallbacks aliases r.snapshot.strategy
      name).0,
  refl,
  refl,
  refl,
)
