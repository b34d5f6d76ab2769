-- ===== src/Routing/Table.antt =====
-- crates/yb-gateway/src/router.rs: the routing table, how it is built from a list of deployments,
-- and how a requested name is followed to a model through the aliases. A hash map is the list of its
-- entries.
pub mod Aliases
pub mod Laws
use sovereign_gateway.Base.{
  ℕ, zero, suc, ◌+◌, ◌-◌, ◌*◌, ◌%◌, ◌≤◌, ◌<◌, String, ◌≡◌, ◌≢◌, refl, sym, ap, ◌∙◌, ◌↔◌, ◌⊎◌, inl,
  inr, Bool, true, false, not, ◌&&◌, ◌||◌, Option, none, some, List, [], ◌∷◌, ◌++◌, map, ◌==◌,
  eq_iff, eq_refl, arith, ltb, leb, eqb, if◌then◌else◌, Bool-cases, Option-cases, All, All-append,
  length, is_nil, select, contains, any, unwrap_or, or_else,
}
use sovereign_gateway.Base.{ℕ, zero, suc, String, List, [], ◌∷◌, ◌++◌, Option, none, some, true}
use sovereign_gateway.Core.Deployments.{Deployment}
use sovereign_gateway.Base.Assoc.{upsert, lookup, is_some}

pub data Strategy : Type 0 where
  simple round_robin least_busy : Strategy

-- The counters `rr` and `load` are the atomics of the program.
pub record ModelEntry : Type 0 where
  pub deployments : List Deployment
  pub rr : ℕ
  pub load : List ℕ

pub record Snapshot : Type 0 where
  pub models : List (String × ModelEntry)
  pub fallbacks : List (String × List String)
  pub aliases : List (String × String)
  pub strategy : Strategy

abbrev pub empty_entry : ModelEntry
empty_entry = record { deployments = []; rr = 0; load = [] }

abbrev pub push_entry : Deployment → ModelEntry → ModelEntry
push_entry d e = record e { deployments = e.deployments ++ d ∷ []; load = e.load ++ 0 ∷ [] }

pub build_models : List (String × ModelEntry) → List Deployment → List (String × ModelEntry)
unfolding upsert
build_models models [] = models
build_models models (d ∷ ds) =
    build_models (upsert d.model_name empty_entry (push_entry d) models) ds

unfoldable pub build :
    List Deployment → List (String × List String) → List (String × String) → Strategy → Snapshot
unfolding build_models
build deployments fallbacks aliases strategy = record {
  models = build_models [] deployments;
  fallbacks = fallbacks;
  aliases = aliases;
  strategy = strategy;
}

-- The loop of `canonical`, with the rounds that are left.
unfoldable pub canonical_from : ℕ → Snapshot → String → String
unfolding lookup
canonical_from zero s name = name
canonical_from (suc rounds) s name = elim (is_some (lookup name s.models)) [
  | true ↦ name
  | false ↦ elim (lookup name s.aliases) [
    | none ↦ name
    | some target ↦ canonical_from rounds s target
  ]
]

unfoldable pub canonical : Snapshot → String → String
unfolding canonical_from
canonical s requested = canonical_from 8 s requested
