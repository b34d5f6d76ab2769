-- ===== src/Examples/Domain.antt =====
-- The theorems on the domain types at concrete values.
use sovereign_gateway.Base.{
  String, ◌≡◌, refl, ◌↔◌, ◌⊎◌, true, false, ◌&&◌, List, [], ◌∷◌, arith, select, contains,
}
use sovereign_gateway.Core.Access.{
  intersect_allow, AccessPolicy, permits_model, permits_provider, merge,
}
use sovereign_gateway.Core.Access.Laws.{Disjoint, merge_permits, merge-Disjoint}
use sovereign_gateway.Core.Roles.{
  admin, member, authorize, authorize_iff, manage_keys, view_spend, read_catalog,
}
use sovereign_gateway.Core.Errors.{ok, err, forbidden}
use sovereign_gateway.Core.Scopes.{KeyScope, inference, parse_set, render_set, has_scope}
use sovereign_gateway.Core.Scopes.Laws.{parse_set-render_set, or_inference}

abbrev key_policy : AccessPolicy
key_policy = record {
  allowed_model_ids = "a" ∷ "b" ∷ [];
  denied_model_ids = [];
  allowed_provider_ids = [];
  denied_provider_ids = "p" ∷ [];
}

abbrev team_policy : AccessPolicy
team_policy = record {
  allowed_model_ids = "b" ∷ "c" ∷ [];
  denied_model_ids = "c" ∷ [];
  allowed_provider_ids = [];
  denied_provider_ids = [];
}

abbrev other_policy : AccessPolicy
other_policy = record {
  allowed_model_ids = "z" ∷ [];
  denied_model_ids = "y" ∷ [];
  allowed_provider_ids = [];
  denied_provider_ids = [];
}

models-overlap : ¬ Disjoint (key_policy.allowed_model_ids) (team_policy.allowed_model_ids)
unfolding intersect_allow contains select
models-overlap = λ h. ground (arith, h)

providers-overlap : ¬ Disjoint (key_policy.allowed_provider_ids) (team_policy.allowed_provider_ids)
unfolding intersect_allow contains select
providers-overlap = λ h. ground (arith, h)

merge_permits_example :
    (permits_model (merge key_policy team_policy) "b"
      ≡ permits_model key_policy "b" && permits_model team_policy "b")
    × (permits_provider (merge key_policy team_policy) "p"
        ≡ permits_provider key_policy "p" && permits_provider team_policy "p")
merge_permits_example =
    merge_permits key_policy team_policy "b" "p" models-overlap providers-overlap

models-Disjoint : Disjoint (key_policy.allowed_model_ids) (other_policy.allowed_model_ids)
unfolding intersect_allow contains select
models-Disjoint = (refl, refl, refl)

merge-Disjoint_example :
    (permits_model key_policy "q" && permits_model other_policy "q" ≡ false)
    × (permits_model (merge key_policy other_policy) "q" ≡ true)
unfolding contains
merge-Disjoint_example = merge-Disjoint key_policy other_policy "q" models-Disjoint

authorize_iff_example :
    ((authorize member manage_keys ≡ ok tt)
      ↔ ((member ≡ admin) ⊎ ((manage_keys ≡ view_spend) ⊎ (manage_keys ≡ read_catalog))))
    × ((authorize member manage_keys ≡ ok tt)
        ⊎ ((why : String) × (authorize member manage_keys ≡ err (forbidden why))))
authorize_iff_example = authorize_iff member manage_keys

parse_set-render_set_example :
    (back : List KeyScope) × (parse_set
        (render_set (inference ∷ sovereign_gateway.Core.Scopes.KeyScope.admin ∷ inference ∷ []))
      ≡ ok back)
    × ((s : KeyScope)
        → has_scope s back
          ≡ has_scope s (
              or_inference
                (inference ∷ sovereign_gateway.Core.Scopes.KeyScope.admin ∷ inference ∷ [])))
parse_set-render_set_example =
    parse_set-render_set (inference ∷ sovereign_gateway.Core.Scopes.KeyScope.admin ∷ inference ∷ [])
