-- ===== src/Routing/Table/Laws.antt =====
-- What a table built from a list of deployments holds under each name.
use sovereign_gateway.Base.{
  String, ◌≡◌, refl, sym, ◌∙◌, inl, inr, Option, none, some, List, [], ◌∷◌, ◌++◌, ◌==◌, arith,
  Bool-cases, length, select, unwrap_or, length-append,
}
use sovereign_gateway.Core.Deployments.{Deployment}
use sovereign_gateway.Routing.Table.{
  ModelEntry, build_models, push_entry, build, empty_entry, Strategy,
}
use sovereign_gateway.Base.Assoc.{lookup, upsert, lookup-upsert}
use mathlib.Core.List.{append-nil, append_assoc}

-- The deployments of a name, in the order of the list.
abbrev pub of_model : String → List Deployment → List Deployment
of_model name = select (λ d. d.model_name == name)

-- An entry has one load counter for each of its deployments.
abbrev pub IsCounted : Option ModelEntry → Type 0
IsCounted none = Unit
IsCounted (some e) = length e.load ≡ length e.deployments

-- The deployments under a name: none where the name is missing.
abbrev pub stored : Option ModelEntry → List Deployment
stored none = []
stored (some e) = e.deployments

stored-push :
    (d : Deployment) (o : Option ModelEntry)
    → stored (some (push_entry d (unwrap_or o empty_entry))) ≡ stored o ++ d ∷ []
stored-push d none = refl
stored-push d (some e) = refl

IsCounted-push :
    (d : Deployment) (o : Option ModelEntry)
    → IsCounted o
    → IsCounted (some (push_entry d (unwrap_or o empty_entry)))
IsCounted-push d none c = refl
IsCounted-push d (some e) c =
    omega (arith, length-append e.load (0 ∷ []), length-append e.deployments (d ∷ []), c)

build_models-lookup :
    (name : String) (models : List (String × ModelEntry)) (ds : List Deployment)
    → IsCounted (lookup name models)
    → (stored (lookup name (build_models models ds))
        ≡ stored (lookup name models) ++ of_model name ds)
      × IsCounted (lookup name (build_models models ds))
unfolding build_models select
build_models-lookup name models [] c = (sym (append-nil _), c)
build_models-lookup name models (d ∷ ds) c =
    let models' = upsert d.model_name empty_entry (push_entry d) models in
    let found = lookup-upsert d.model_name name empty_entry (push_entry d) models in
    elim (Bool-cases (d.model_name == name)) [
      | inl e ↦
          (let here : lookup name models'
                ≡ some (push_entry d (unwrap_or (lookup name models) empty_entry)) =
              rw (found, e) in
            let c' : IsCounted (lookup name models') =
              rw here (IsCounted-push d (lookup name models) c) in
            let (kept, counted) = build_models-lookup name models' ds c' in
            (
              kept
                  ∙ rw (
                    here,
                    e,
                    stored-push d (lookup name models),
                    append_assoc (stored (lookup name models)) (d ∷ []) (of_model name ds),
                  ),
              counted,
            ))
      | inr e ↦
          (let here : lookup name models' ≡ lookup name models = rw (found, e) in
            let c' : IsCounted (lookup name models') = rw here c in
            let (kept, counted) = build_models-lookup name models' ds c' in
            (kept ∙ rw (here, e), counted))
    ]

-- A table built from a list of deployments holds under each name exactly the deployments of that
-- name, in the order of the list, and one load counter for each of them.
pub build-stored :
    (ds : List Deployment) (fallbacks : List (String × List String))
    (aliases : List (String × String)) (strategy : Strategy) (name : String)
    → (stored (lookup name (build ds fallbacks aliases strategy).models) ≡ of_model name ds)
      × IsCounted (lookup name (build ds fallbacks aliases strategy).models)
unfolding build build_models lookup
build-stored ds fallbacks aliases strategy name = build_models-lookup name [] ds tt
