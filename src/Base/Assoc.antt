-- ===== src/Base/Assoc.antt =====
-- A map with text keys as the list of its entries, each key at most once.
use mathlib.Core.Option
use sovereign_gateway.Base.Tests.{if◌then◌else◌, unwrap_or}
use mathlib.Core.List.{List, [], ◌∷◌}
use mathlib.Core.Option.{Option, none, some}
use mathlib.Core.Bool.{Bool, true, false}
use Prim.Native.String.{String}
use text.Mathlib.Text.{◌==◌}
use text.Mathlib.TextEquality.{eq_iff}
use mathlib.Core.Path.{◌≡◌}
use native.Mathlib.Omega.{arith}

module _ {ℓ} {V : Type ℓ} where
  unfoldable pub lookup : String → List (String × V) → Option V
  lookup k [] = none
  lookup k ((j, v) ∷ m) = if j == k then some v else lookup k m

  -- The value under a key is changed; a missing key changes nothing.
  unfoldable pub modify : String → (V → V) → List (String × V) → List (String × V)
  modify k f [] = []
  modify k f ((j, v) ∷ m) = if j == k then (j, f v) ∷ m else (j, v) ∷ modify k f m

  -- Rust's `entry(k).or_insert(v)` followed by a change of the value.
  unfoldable pub upsert : String → V → (V → V) → List (String × V) → List (String × V)
  upsert k d f [] = (k, f d) ∷ []
  upsert k d f ((j, v) ∷ m) = if j == k then (j, f v) ∷ m else (j, v) ∷ upsert k d f m

  abbrev pub is_some : Option V → Bool
  is_some none = false
  is_some (some v) = true

  pub lookup-modify :
      (k j : String) (f : V → V) (m : List (String × V))
      → lookup j (modify k f m) ≡ (if k == j then Option.map f (lookup j m) else lookup j m)
  unfolding lookup modify
  lookup-modify k j f [] = ground arith
  lookup-modify k j f ((i, w) ∷ m) =
      ground (arith, eq_iff k j, eq_iff i k, eq_iff i j, lookup-modify k j f m)

  pub lookup-upsert :
      (k j : String) (d : V) (f : V → V) (m : List (String × V))
      → lookup j (upsert k d f m)
        ≡ (if k == j then some (f (unwrap_or (lookup j m) d)) else lookup j m)
  unfolding lookup upsert
  lookup-upsert k j d f [] = ground (arith, eq_iff k j)
  lookup-upsert k j d f ((i, w) ∷ m) =
      ground (arith, eq_iff k j, eq_iff i k, eq_iff i j, lookup-upsert k j d f m)
