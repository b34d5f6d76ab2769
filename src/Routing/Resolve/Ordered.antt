-- ===== src/Routing/Resolve/Ordered.antt =====
-- One entry of the table in `collect`: its allowed deployments in order, and its counters advanced.
use sovereign_gateway.Base.{
  ℕ, String, ◌≡◌, ◌≢◌, refl, sym, ap, ◌∙◌, inl, inr, true, false, Option, none, some, List, [], ◌∷◌,
  ◌==◌, eq_iff, Bool-cases, is_nil, select,
}
use sovereign_gateway.Routing.Table.{ModelEntry, Strategy}
use sovereign_gateway.Core.Deployments.{RouteRequest, Deployment}
use sovereign_gateway.Routing.Order.{Floats, order, pick}
use sovereign_gateway.Base.Assoc.{lookup, modify, lookup-modify}
use sovereign_gateway.Routing.Resolve.{
  is_allowed, Progress, survivors_from, collect_entry, push_new,
}
use mathlib.Core.List.{Perm}
use sovereign_gateway.Routing.Resolve.Entries.{pick-survivors_from}
use sovereign_gateway.Routing.Order.Laws.{order-perm}

-- The deployments of a model, none if it has no entry.
abbrev pub entry_deployments : Option ModelEntry → List Deployment
entry_deployments none = []
entry_deployments (some e) = e.deployments

abbrev pub deployments_of : String → List (String × ModelEntry) → List Deployment
deployments_of model models = entry_deployments (lookup model models)

-- What a request may use of a model.
abbrev pub allowed_of : RouteRequest → List (String × ModelEntry) → String → List Deployment
allowed_of req models model = select (is_allowed req) (deployments_of model models)

-- Two tables with the same deployments under every name: they differ in counters at most.
abbrev pub SameTable : List (String × ModelEntry) → List (String × ModelEntry) → Type 0
SameTable m n = (model : String) → deployments_of model m ≡ deployments_of model n

pub nil_of_is_nil : {A : Type 0} (xs : List A) → is_nil xs ≡ true → xs ≡ []
nil_of_is_nil [] h = refl
nil_of_is_nil (x ∷ xs) h = cc

pub ne-nil_of_is_nil : {A : Type 0} (xs : List A) → is_nil xs ≡ false → xs ≢ []
ne-nil_of_is_nil [] h = cc
ne-nil_of_is_nil (x ∷ xs) h = cc

SameTable-modify :
    (model : String) (entry entry' : ModelEntry) (models : List (String × ModelEntry))
    → lookup model models ≡ some entry
    → entry'.deployments ≡ entry.deployments
    → SameTable (modify model (λ _. entry') models) models
SameTable-modify model entry entry' models e same j = elim (Bool-cases (model == j)) [
  | inl h ↦
      let at : model ≡ j = (eq_iff model j).0 h in
      ap entry_deployments (lookup-modify model j (λ _. entry') models) ∙ rw (h, ← at, e) same
  | inr h ↦ ap entry_deployments (lookup-modify model j (λ _. entry') models) ∙ rw h refl
]

module _ (f : Floats) (st : Strategy) (req : RouteRequest) (entry : ModelEntry) (p : Progress) where
  unfoldable pub survivors : List ℕ
  survivors = survivors_from 0 req entry.deployments

  -- The allowed deployments of an entry, in the order of the strategy.
  unfoldable pub ordered : List Deployment
  unfolding survivors
  ordered = (order f st p.rng entry survivors).0

  -- The progress with the counters advanced, before anything is added.
  unfoldable pub advanced : String → Progress
  unfolding survivors
  advanced model = record p {
    models = modify model (λ _. (order f st p.rng entry survivors).1) p.models;
    rng = (order f st p.rng entry survivors).2;
  }

  pub collect_entry_nil :
      (model : String)
      → is_nil survivors ≡ true
      → (collect_entry f st req model entry p ≡ p)
        × (select (is_allowed req) entry.deployments ≡ [])
  unfolding collect_entry survivors
  collect_entry_nil model e = (
    rw e refl,
    sym (pick-survivors_from req entry.deployments)
        ∙ ap (pick entry.deployments) (nil_of_is_nil survivors e),
  )

  pub collect_entry_some :
      (model : String)
      → is_nil survivors ≡ false
      → collect_entry f st req model entry p ≡ push_new ordered (advanced model)
  unfolding collect_entry ordered advanced
  collect_entry_some model e = rw e refl

  pub ordered-perm :
      is_nil survivors ≡ false → Perm ordered (select (is_allowed req) entry.deployments)
  unfolding ordered
  ordered-perm e =
      rw (← pick-survivors_from req entry.deployments)
        (order-perm f st p.rng entry survivors (ne-nil_of_is_nil survivors e)).0

  pub advanced-SameTable :
      (model : String)
      → is_nil survivors ≡ false
      → lookup model p.models ≡ some entry
      → SameTable (advanced model).models p.models
  unfolding advanced
  advanced-SameTable model e h =
      SameTable-modify model entry _ p.models h
        (order-perm f st p.rng entry survivors (ne-nil_of_is_nil survivors e)).1
