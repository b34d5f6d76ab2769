-- ===== src/Redact/Bodies/Kept.antt =====
-- crates/yb-redact/src/lib.rs, `redact_body`: what is kept of a JSON body.
use sovereign_gateway.Base.{
  ℕ, String, ◌≡◌, refl, sym, ap, ◌∙◌, ◌⊎◌, inl, inr, Bool, true, false, not, ◌&&◌, ◌||◌, Option,
  none, some, List, ◌==◌, eq_iff, arith, Bool-cases, unwrap_or,
}
use sovereign_gateway.Core.Json.{
  Value, null, bool, number, string, array, object, Items, nil, cons, Fields, end, field,
}
use sovereign_gateway.Redact.Values.{
  Redactor, redact_text, redact_value, new_text, redact_items, Cow, borrowed, redact_fields, owned,
}
use sovereign_gateway.Redact.Values.Clean.{
  IsRedactor, text_of, AllTexts, AllItems, AllFields, redact_value-All,
}
use sovereign_gateway.Redact.Bodies.{
  Serde, redact_body, redact_json, redact_parsed, is_container, is_unique,
}
use mathlib.Core.Path.{subst}

or_false : (a b : Bool) → a || b ≡ false → (a ≡ false) × (b ≡ false)
or_false false false h = (refl, refl)
or_false false true h = ground arith
or_false true b h = ground arith

module _ (P : String → Type 0) (r : Redactor) (h : IsRedactor r)
    (c : (s : String) → P (text_of (r s))) where
  redact_text-kept : (s : String) → (redact_text r s).1 ≡ false → P s
  unfolding redact_text new_text
  redact_text-kept s = by_cow (r s) (h s) (c s)
    where
      by_cow :
          (o : Cow)
          → ((t : String) → o ≡ borrowed t → t ≡ s)
          → P (text_of o)
          → (elim (new_text o s) as (λ _. String × Bool) [
            | none ↦ (s, false)
            | some t ↦ (t, true)
          ]).1
            ≡ false
          → P s
      by_cow (borrowed t) same p = λ e. subst P (same t refl) p
      by_cow (owned t) same p = elim (Bool-cases (t == s)) [
        | inl q ↦ rw q (λ e. subst P ((eq_iff t s).0 q) p)
        | inr q ↦ rw q (λ e. ground arith)
      ]

  mutual
    unfolding redact_value AllTexts

    redact_value-kept : (v : Value) → (redact_value r v).1 ≡ false → AllTexts P v
    redact_value-kept null e = tt
    redact_value-kept (bool b) e = tt
    redact_value-kept (number n) e = tt
    redact_value-kept (string s) e = redact_text-kept s e
    redact_value-kept (array items) e = redact_items-kept items e
    redact_value-kept (object fields) e = redact_fields-kept fields e

    redact_items-kept : (items : Items) → (redact_items r items).1 ≡ false → AllItems P items
    redact_items-kept nil e = tt
    redact_items-kept (cons v items) e =
        let (a, b) = or_false (redact_value r v).1 (redact_items r items).1 e in
        (redact_value-kept v a, redact_items-kept items b)

    redact_fields-kept : (fields : Fields) → (redact_fields r fields).1 ≡ false → AllFields P fields
    redact_fields-kept end e = tt
    redact_fields-kept (field k v fields) e =
        let (ab, d) =
          or_false ((redact_value r v).1 || (redact_text r k).1) (redact_fields r fields).1 e in
        let (a, b) = or_false (redact_value r v).1 (redact_text r k).1 ab in
        (redact_text-kept k b, redact_value-kept v a, redact_fields-kept fields d)

-- What is kept of a JSON body: the body as it came, which says a value with allowed texts and gives no
-- key twice, or what is written of such a value.
abbrev pub IsKept : (String → Type 0) → Serde → List ℕ → List ℕ → Type 0
IsKept P s body kept =
    (v : Value) × AllTexts P v
    × ((s.to_vec v ≡ some kept)
        ⊎ ((s.from_slice body ≡ some v) × (is_unique s body ≡ true) × (kept ≡ body)))

redact_json-none :
    (s : Serde) (r : Redactor) (body : List ℕ) (v : Value)
    → s.from_slice body ≡ some v
    → is_container v ≡ true
    → not (redact_value r v).1 && is_unique s body ≡ true
    → redact_json s r body ≡ some none
unfolding redact_json redact_parsed
redact_json-none s r body v e k q = rw (redact_json, e, redact_parsed, k, q) refl

redact_json-some :
    (s : Serde) (r : Redactor) (body : List ℕ) (v : Value)
    → s.from_slice body ≡ some v
    → is_container v ≡ true
    → not (redact_value r v).1 && is_unique s body ≡ false
    → redact_json s r body ≡ some (s.to_vec (redact_value r v).0)
unfolding redact_json redact_parsed
redact_json-some s r body v e k q = rw (redact_json, e, redact_parsed, k, q) refl

redact_body-some :
    (s : Serde) (r : Redactor) (body : List ℕ) (o : Option (List ℕ))
    → redact_json s r body ≡ some o
    → redact_body s r body ≡ unwrap_or o body
unfolding redact_body
redact_body-some s r body o e = rw (redact_body, e) refl

-- Where a redactor that borrows gives the text back as it was and its texts satisfy a predicate, and
-- every value can be written, what is kept of a body that is a JSON object or array is the writing of
-- a value, or a body without repeated keys that says one, whose strings and keys all satisfy it.
pub redact_body-IsKept :
    (P : String → Type 0) (s : Serde) (r : Redactor)
    → IsRedactor r
    → ((t : String) → P (text_of (r t)))
    → ((v : Value) → (bytes : List ℕ) × (s.to_vec v ≡ some bytes))
    → (body : List ℕ) (v : Value) → s.from_slice body ≡ some v
    → is_container v ≡ true
    → IsKept P s body (redact_body s r body)
redact_body-IsKept P s r h c w body v e k =
    elim (Bool-cases (not (redact_value r v).1 && is_unique s body)) [
      | inl q ↦
          let same = redact_body-some s r body none (redact_json-none s r body v e k q) in
          (v, redact_value-kept P r h c v (ground (arith, q)), inr (e, ground (arith, q), same))
      | inr q ↦
          let (bytes, written) = w (redact_value r v).0 in
          let same =
            redact_body-some s r body (some bytes)
              (redact_json-some s r body v e k q ∙ ap some written) in
          ((redact_value r v).0, redact_value-All P r h c v, inl (written ∙ ap some (sym same)))
    ]
