-- ===== src/Wire/Anthropic/Prompts/Lookups.antt =====
-- serde_json's map: what is found under a key after an insertion.
use Prim.Native.Nat.{Ordering}
use Prim.Native.String.{compare}
use text.Mathlib.Text.{is_eq}
use sovereign_gateway.Base.{
  arith, String, ◌≡◌, refl, ap, false, Bool-cases, inl, inr, Option, none, some, ◌==◌, eq_iff,
  if◌then◌else◌, or_else,
}
use sovereign_gateway.Core.Json.{Value, Fields, end, field}
use sovereign_gateway.Redact.Values.{insert_field}
use sovereign_gateway.Wire.Common.{find_field}
use sovereign_gateway.Wire.Anthropic.Prompts.{insert_opt}

pub find_field-insert_field :
    (j k : String) (v : Value) (fields : Fields)
    → find_field j (insert_field k v fields) ≡ (if k == j then some v else find_field j fields)
unfolding find_field insert_field
find_field-insert_field j k v end = refl
find_field-insert_field j k v (field l w fields) =
    by_order (find_field-insert_field j k v fields) (compare k l) refl
  where
    cut :
        (k == l) ≡ false
        → (if l == j then some w else (if k == j then some v else find_field j fields))
          ≡ (if k == j then some v else (if l == j then some w else find_field j fields))
    cut apart = elim (Bool-cases (l == j)) [
      | inl p ↦ elim (Bool-cases (k == j)) [
        | inl q ↦ ground (arith, apart, p, q, eq_iff l j, eq_iff k j, eq_iff k l)
        | inr q ↦ rw (p, q) refl
      ]
      | inr p ↦ rw p refl
    ]

    by_order :
        find_field j (insert_field k v fields) ≡ (if k == j then some v else find_field j fields)
        → (o : Ordering) → compare k l ≡ o
        → find_field j (elim o as (λ _. Fields) [
          | Ordering.lt ↦ field k v (field l w fields)
          | Ordering.eq ↦ field l v fields
          | Ordering.gt ↦ field l w (insert_field k v fields)
        ])
          ≡ (if k == j then some v else find_field j (field l w fields))
    by_order ih Ordering.lt q = refl
    by_order ih Ordering.eq q =
        let e : k ≡ l = (eq_iff k l).0 (ap is_eq q) in
        elim (Bool-cases (l == j)) [ inl p ↦ rw (e, p) refl | inr p ↦ rw (e, p) refl ]
    by_order ih Ordering.gt q = let apart : (k == l) ≡ false = ap is_eq q in rw ih (cut apart)

-- The option that is inserted last under a key is found, or else what was there.
pub find_field-insert_opt :
    (j k : String) (v : Option Value) (fields : Fields)
    → find_field j (insert_opt k v fields)
      ≡ (if k == j then or_else v (find_field j fields) else find_field j fields)
unfolding insert_opt
find_field-insert_opt j k none fields = elim (Bool-cases (k == j)) [
  | inl q ↦ rw q refl
  | inr q ↦ rw q refl
]
find_field-insert_opt j k (some v) fields = find_field-insert_field j k v fields
