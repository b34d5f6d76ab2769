-- ===== src/Redact/Values/Clean.antt =====
-- crates/yb-redact/src/lib.rs, `redact_value`: what is left of a value's texts.
use sovereign_gateway.Base.{
  String, ◌≡◌, refl, sym, inl, inr, Bool, true, false, none, some, ◌==◌, eq_iff, Bool-cases,
}
use sovereign_gateway.Core.Json.{
  Value, null, bool, number, string, array, object, Items, nil, cons, Fields, end, field,
}
use sovereign_gateway.Redact.Values.{
  Cow, Redactor, redact_text, insert_field, borrowed, new_text, owned, collect_fields,
  redact_number, redact_value, card_shaped, redact_fields, redact_items,
}
use Prim.Native.Nat.{Ordering}
use Prim.Native.String.{compare}

-- Every string and every key of a value satisfies a predicate.
unfoldable mutual
  pub AllTexts : (String → Type 0) → Value → Type 0
  AllTexts P null = Unit
  AllTexts P (bool b) = Unit
  AllTexts P (number n) = Unit
  AllTexts P (string s) = P s
  AllTexts P (array items) = AllItems P items
  AllTexts P (object fields) = AllFields P fields

  pub AllItems : (String → Type 0) → Items → Type 0
  AllItems P nil = Unit
  AllItems P (cons v items) = AllTexts P v × AllItems P items

  pub AllFields : (String → Type 0) → Fields → Type 0
  AllFields P end = Unit
  AllFields P (field k v fields) = P k × AllTexts P v × AllFields P fields

-- The text that a redactor gives.
abbrev pub text_of : Cow → String
text_of (borrowed t) = t
text_of (owned t) = t

-- A text that is borrowed is the one that was given.
abbrev pub IsRedactor : Redactor → Type 0
IsRedactor r = (s t : String) → r s ≡ borrowed t → t ≡ s

redact_text-text_of :
    (r : Redactor) (s : String) → IsRedactor r → (redact_text r s).0 ≡ text_of (r s)
unfolding redact_text new_text
redact_text-text_of r s h = by_cow (r s) refl
  where
    by_cow :
        (c : Cow)
        → r s ≡ c
        → (elim (new_text c s) as (λ _. String × Bool) [ none ↦ (s, false) | some t ↦ (t, true) ]).0
          ≡ text_of c
    by_cow (borrowed t) e = sym (h s t e)
    by_cow (owned t) e = elim (Bool-cases (t == s)) [
      | inl q ↦ rw q (sym ((eq_iff t s).0 q))
      | inr q ↦ rw q refl
    ]

module _ (P : String → Type 0) where
  insert_field-All :
      (k : String) (v : Value) (fields : Fields)
      → P k
      → AllTexts P v
      → AllFields P fields
      → AllFields P (insert_field k v fields)
  unfolding insert_field AllTexts
  insert_field-All k v end p q h = (p, q, h)
  insert_field-All k v (field l w fields) p q h =
      by_order (insert_field-All k v fields p q h.2) (compare k l)
    where
      by_order :
          AllFields P (insert_field k v fields)
          → (o : Ordering)
          → AllFields P (elim o as (λ _. Fields) [
            | Ordering.lt ↦ field k v (field l w fields)
            | Ordering.eq ↦ field l v fields
            | Ordering.gt ↦ field l w (insert_field k v fields)
          ])
      by_order rest Ordering.lt = (p, q, h)
      by_order rest Ordering.eq = (h.0, q, h.2)
      by_order rest Ordering.gt = (h.0, h.1, rest)

  collect_fields-All :
      (fields acc : Fields)
      → AllFields P fields
      → AllFields P acc
      → AllFields P (collect_fields fields acc)
  unfolding collect_fields AllTexts
  collect_fields-All end acc h a = a
  collect_fields-All (field k v fields) acc h a =
      collect_fields-All fields (insert_field k v acc) h.2 (insert_field-All k v acc h.0 h.1 a)

module _ (P : String → Type 0) (r : Redactor) (h : IsRedactor r)
    (c : (s : String) → P (text_of (r s))) where
  redact_text-clean : (s : String) → P (redact_text r s).0
  redact_text-clean s = rw (redact_text-text_of r s h) (c s)

  redact_number-clean : (n : String) → AllTexts P (redact_number r n).0
  unfolding redact_number AllTexts new_text
  redact_number-clean n = elim (Bool-cases (card_shaped n)) [
    | inl q ↦ rw q (by_cow (r n) (c n))
    | inr q ↦ rw q tt
  ]
    where
      by_cow :
          (o : Cow)
          → P (text_of o)
          → AllTexts P
              (elim (new_text o n) as (λ _. Value × Bool) [
                | none ↦ (number n, false)
                | some t ↦ (string t, true)
              ]).0
      by_cow (borrowed t) p = tt
      by_cow (owned t) p = elim (Bool-cases (t == n)) [ inl q ↦ rw q tt | inr q ↦ rw q p ]

  mutual
    unfolding redact_value AllTexts

    redact_value-clean : (v : Value) → AllTexts P (redact_value r v).0
    redact_value-clean null = tt
    redact_value-clean (bool b) = tt
    redact_value-clean (number n) = redact_number-clean n
    redact_value-clean (string s) = redact_text-clean s
    redact_value-clean (array items) = redact_items-clean items
    redact_value-clean (object fields) =
        collect_fields-All P (redact_fields r fields).0 end (redact_fields-clean fields) tt

    redact_items-clean : (items : Items) → AllItems P (redact_items r items).0
    redact_items-clean nil = tt
    redact_items-clean (cons v items) = (redact_value-clean v, redact_items-clean items)

    redact_fields-clean : (fields : Fields) → AllFields P (redact_fields r fields).0
    redact_fields-clean end = tt
    redact_fields-clean (field k v fields) =
        (redact_text-clean k, redact_value-clean v, redact_fields-clean fields)

-- Where a redactor that borrows gives the text back as it was, and its texts satisfy a predicate, every
-- string and every key of a redacted value satisfies it, at every depth.
pub redact_value-All :
    (P : String → Type 0) (r : Redactor)
    → IsRedactor r
    → ((s : String) → P (text_of (r s)))
    → (v : Value) → AllTexts P (redact_value r v).0
redact_value-All P r h c v = redact_value-clean P r h c v
