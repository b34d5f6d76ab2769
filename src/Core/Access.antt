-- ===== src/Core/Access.antt =====
-- crates/yb-core/src/model.rs, `AccessPolicy`: the allow and deny lists of a key or a team, and how
-- the two are merged. The lists hold ids.
pub mod Laws
use sovereign_gateway.Base.{
  String, Bool, true, false, not, ◌&&◌, ◌||◌, List, [], ◌∷◌, ◌++◌, if◌then◌else◌, contains, is_nil,
  select,
}

pub record AccessPolicy : Type 0 where
  pub allowed_model_ids : List String
  pub denied_model_ids : List String
  pub allowed_provider_ids : List String
  pub denied_provider_ids : List String

pub is_unrestricted : AccessPolicy → Bool
is_unrestricted p =
    is_nil p.allowed_model_ids
    && is_nil p.denied_model_ids
    && is_nil p.allowed_provider_ids
    && is_nil p.denied_provider_ids

-- The test that `permits_model` and `permits_provider` each write out: deny wins, and an allow list
-- that is not empty is a ceiling.
pub permits : List String → List String → String → Bool
unfolding contains
permits allowed denied id =
    if contains id denied
    then false
    else if not (is_nil allowed) && not (contains id allowed)
    then false
    else true

unfoldable pub permits_model : AccessPolicy → String → Bool
unfolding permits
permits_model p id = permits p.allowed_model_ids p.denied_model_ids id

unfoldable pub permits_provider : AccessPolicy → String → Bool
unfolding permits
permits_provider p id = permits p.allowed_provider_ids p.denied_provider_ids id

-- The loop of `union`: each new element of the second list goes to the end.
unfoldable pub union : List String → List String → List String
unfolding contains
union out [] = out
union out (x ∷ b) = union (if contains x out then out else out ++ x ∷ []) b

unfoldable pub intersect_allow : List String → List String → List String
unfolding contains select
intersect_allow a b = if is_nil a then b else if is_nil b then a else select (λ x. contains x b) a

unfoldable pub merge : AccessPolicy → AccessPolicy → AccessPolicy
unfolding union intersect_allow
merge p q = record {
  allowed_model_ids = intersect_allow p.allowed_model_ids q.allowed_model_ids;
  denied_model_ids = union p.denied_model_ids q.denied_model_ids;
  allowed_provider_ids = intersect_allow p.allowed_provider_ids q.allowed_provider_ids;
  denied_provider_ids = union p.denied_provider_ids q.denied_provider_ids;
}
