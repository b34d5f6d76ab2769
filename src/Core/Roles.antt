-- ===== src/Core/Roles.antt =====
-- crates/yb-core/src/model.rs, `Role`, and crates/yb-core/src/rbac.rs: who may do what in the admin
-- surface. The derived order of `Role` puts `Member` below `Admin`.
use sovereign_gateway.Base.{
  String, Bool, true, false, ◌≡◌, refl, ◌↔◌, ◌⊎◌, inl, inr, if◌then◌else◌, ◌==◌, ◌||◌, arith,
}
use Prim.Native.String.{◌++◌}
use sovereign_gateway.Core.Errors.{Result, ok, err, bad_request, forbidden}

pub data Role : Type 0 where
  member admin : Role

unfoldable pub at_least : Role → Role → Bool
at_least admin other = true
at_least member member = true
at_least member admin = false

unfoldable pub role_str : Role → String
role_str member = "member"
role_str admin = "admin"

unfoldable pub parse_role : String → Result Role
parse_role s =
    if s == "admin"
    then ok admin
    else if s == "member" || s == "user"
    then ok member
    else err (bad_request ("unknown role: " ++ s))

pub data Action : Type 0 where
  manage_keys view_spend edit_config manage_members read_catalog : Action

unfoldable pub min_role : Action → Role
min_role manage_keys = admin
min_role edit_config = admin
min_role manage_members = admin
min_role view_spend = member
min_role read_catalog = member

-- The derived `Debug` name of an action.
unfoldable pub action_debug : Action → String
action_debug manage_keys = "ManageKeys"
action_debug view_spend = "ViewSpend"
action_debug edit_config = "EditConfig"
action_debug manage_members = "ManageMembers"
action_debug read_catalog = "ReadCatalog"

unfoldable pub authorize : Role → Action → Result (Unit {0})
unfolding at_least min_role role_str action_debug
authorize role action =
    if at_least role (min_role action)
    then ok tt
    else err (forbidden ("role " ++ role_str role ++ " cannot perform " ++ action_debug action))

-- A role that is written and read is that role again.
pub parse_role-role_str : (r : Role) → parse_role (role_str r) ≡ ok r
unfolding parse_role role_str
parse_role-role_str member = refl
parse_role-role_str admin = refl

-- An admin may do everything; a member exactly what only reads; and what is refused is refused as
-- forbidden.
pub authorize_iff :
    (r : Role) (a : Action)
    → ((authorize r a ≡ ok tt) ↔ ((r ≡ admin) ⊎ ((a ≡ view_spend) ⊎ (a ≡ read_catalog))))
      × ((authorize r a ≡ ok tt) ⊎ ((why : String) × (authorize r a ≡ err (forbidden why))))
unfolding authorize
authorize_iff admin a = (((λ _. inl refl), (λ _. refl)), inl refl)
authorize_iff member view_spend = (((λ _. inr (inl refl)), (λ _. refl)), inl refl)
authorize_iff member read_catalog = (((λ _. inr (inr refl)), (λ _. refl)), inl refl)
authorize_iff member manage_keys = (((λ h. cc), λ h. ground arith), inr (_, refl))
authorize_iff member edit_config = (((λ h. cc), λ h. ground arith), inr (_, refl))
authorize_iff member manage_members = (((λ h. cc), λ h. ground arith), inr (_, refl))
