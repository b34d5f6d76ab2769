-- ===== src/Routing/Order/Sorting.antt =====
-- A stable sort by a Boolean order gives a permutation.
use mathlib.Core.List.Perm
use sovereign_gateway.Base.{inl, inr, Bool, List, [], ◌∷◌, Bool-cases}
use sovereign_gateway.Routing.Order.{insert_by, sort_by}
use mathlib.Core.List.{Perm}

module _ {ℓ} {A : Type ℓ} (before : A → A → Bool) where
  insert_by-perm : (x : A) (ys : List A) → Perm (insert_by before x ys) (x ∷ ys)
  unfolding insert_by
  insert_by-perm x [] = Perm.refl (x ∷ [])
  insert_by-perm x (y ∷ ys) = elim (Bool-cases (before y x)) [
    | inl e ↦ rw e (Perm.trans (Perm.cons y (insert_by-perm x ys)) (Perm.swap x y ys))
    | inr e ↦ rw e (Perm.refl (x ∷ y ∷ ys))
  ]

  pub sort_by-perm : (xs : List A) → Perm (sort_by before xs) xs
  unfolding sort_by
  sort_by-perm [] = Perm.refl []
  sort_by-perm (x ∷ xs) =
      Perm.trans (insert_by-perm x (sort_by before xs)) (Perm.cons x (sort_by-perm xs))
