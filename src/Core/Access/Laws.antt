-- ===== src/Core/Access/Laws.antt =====
-- What merging two access policies grants: exactly what both grant, unless two allow lists have no
-- id in common.
use sovereign_gateway.Base.{
  String, true, false, not, ◌&&◌, ◌||◌, ◌≡◌, refl, List, [], ◌∷◌, ◌++◌, arith, contains,
  contains-append, is_nil, select, eq_iff, Bool-cases, inl, inr, ◌⊎◌,
}
use sovereign_gateway.Core.Access.{
  permits, union, intersect_allow, permits_model, permits_provider, merge, AccessPolicy,
}

contains-union :
    (a b : List String) (x : String) → contains x (union a b) ≡ contains x a || contains x b
unfolding union contains
contains-union a [] x = ground arith
contains-union a (y ∷ b) x = ground (
  arith,
  eq_iff y x,
  contains-union a b x,
  contains-union (a ++ y ∷ []) b x,
  contains-append x a (y ∷ []),
)

contains-select :
    (a b : List String) (x : String)
    → contains x (select (λ y. contains y b) a) ≡ contains x a && contains x b
unfolding select contains
contains-select [] b x = refl
contains-select (y ∷ a) b x = ground (arith, eq_iff y x, contains-select a b x)

-- Both allow lists restrict, and no id is in both.
abbrev pub Disjoint : List String → List String → Type 0
Disjoint a b = (is_nil a ≡ false) × (is_nil b ≡ false) × (is_nil (intersect_allow a b) ≡ true)

permits-intersect :
    (a b d e : List String) (x : String)
    → (is_nil a ≡ true) ⊎ ((is_nil b ≡ true) ⊎ (is_nil (intersect_allow a b) ≡ false))
    → permits (intersect_allow a b) (union d e) x ≡ permits a d x && permits b e x
unfolding permits intersect_allow
permits-intersect [] b d e x h = ground (arith, contains-union d e x)
permits-intersect (y ∷ a) [] d e x h = ground (arith, contains-union d e x)
permits-intersect (y ∷ a) (z ∷ b) d e x h =
    ground (arith, contains-union d e x, contains-select (y ∷ a) (z ∷ b) x)

overlap_of_not-Disjoint :
    (a b : List String)
    → ¬ Disjoint a b
    → (is_nil a ≡ true) ⊎ ((is_nil b ≡ true) ⊎ (is_nil (intersect_allow a b) ≡ false))
overlap_of_not-Disjoint [] b h = inl refl
overlap_of_not-Disjoint (x ∷ a) [] h = inr (inl refl)
overlap_of_not-Disjoint (x ∷ a) (y ∷ b) h =
    elim (Bool-cases (is_nil (intersect_allow (x ∷ a) (y ∷ b)))) [
      | inl e ↦ absurd (h (refl, refl, e))
      | inr e ↦ inr (inr e)
    ]

-- Unless two allow lists that both restrict have no id in common, the merged policy permits a model,
-- and a provider, exactly when both policies do.
pub merge_permits :
    (p q : AccessPolicy) (model provider : String)
    → ¬ Disjoint p.allowed_model_ids q.allowed_model_ids
    → ¬ Disjoint p.allowed_provider_ids q.allowed_provider_ids
    → (permits_model (merge p q) model ≡ permits_model p model && permits_model q model)
      × (permits_provider (merge p q) provider
          ≡ permits_provider p provider && permits_provider q provider)
unfolding permits_model permits_provider merge
merge_permits p q model provider h k = (
  permits-intersect p.allowed_model_ids q.allowed_model_ids p.denied_model_ids q.denied_model_ids
      model (overlap_of_not-Disjoint p.allowed_model_ids q.allowed_model_ids h),
  permits-intersect p.allowed_provider_ids q.allowed_provider_ids p.denied_provider_ids
      q.denied_provider_ids provider
      (overlap_of_not-Disjoint p.allowed_provider_ids q.allowed_provider_ids k),
)

not-contains_of_is_nil : (a : List String) (x : String) → is_nil a ≡ true → contains x a ≡ false
unfolding contains
not-contains_of_is_nil [] x h = refl
not-contains_of_is_nil (y ∷ a) x h = cc

permits-Disjoint :
    (a b d e : List String) (x : String)
    → Disjoint a b
    → (permits a d x && permits b e x ≡ false)
      × (permits (intersect_allow a b) (union d e) x ≡ not (contains x d || contains x e))
unfolding permits intersect_allow
permits-Disjoint a b d e x (h, k, l) = ground (
  arith,
  contains-union d e x,
  contains-select a b x,
  not-contains_of_is_nil (select (λ y. contains y b) a) x,
)

-- Two allow lists that both restrict and have no id in common are merged into an empty one, which
-- restricts nothing: no model is permitted by both policies, and the merged policy permits every
-- model that neither of them denies.
pub merge-Disjoint :
    (p q : AccessPolicy) (model : String)
    → Disjoint p.allowed_model_ids q.allowed_model_ids
    → (permits_model p model && permits_model q model ≡ false)
      × (permits_model (merge p q) model
          ≡ not (contains model p.denied_model_ids || contains model q.denied_model_ids))
unfolding permits_model merge
merge-Disjoint p q model h =
    permits-Disjoint p.allowed_model_ids q.allowed_model_ids p.denied_model_ids q.denied_model_ids
      model h
