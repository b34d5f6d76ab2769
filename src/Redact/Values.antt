-- ===== src/Redact/Values.antt =====
-- crates/yb-redact/src/lib.rs, `redact_value`: a JSON value with its strings, keys and card numbers
-- redacted. The redactor of texts is a parameter; a `Number` is the text that it is written as, and an
-- object is a sorted map.
pub mod Clean
use sovereign_gateway.Base.{
  ℕ, zero, suc, ◌+◌, ◌-◌, ◌*◌, ◌%◌, ◌≤◌, ◌<◌, String, ◌≡◌, ◌≢◌, refl, sym, ap, ◌∙◌, ◌↔◌, ◌⊎◌, inl,
  inr, Bool, true, false, not, ◌&&◌, ◌||◌, Option, none, some, List, [], ◌∷◌, ◌++◌, map, ◌==◌,
  eq_iff, eq_refl, arith, ltb, leb, eqb, if◌then◌else◌, Bool-cases, Option-cases, All, All-append,
  length, is_nil, select, contains, any, unwrap_or, or_else,
}
use Prim.Native.Nat.{Ordering}
use Prim.Native.String.{[], ◌∷◌, len, compare}
use Prim.Native.Char.{Char, code}
use sovereign_gateway.Base.Text.{strip_prefix}
use sovereign_gateway.Core.Json.{
  Value, null, bool, number, string, array, object, Items, nil, cons, Fields, end, field,
}
use sovereign_gateway.Server.Headers.{all_chars}

-- What a redactor gives: the text that it was given, or a new one.
pub data Cow : Type 0 where
  borrowed : String → Cow
  owned : String → Cow

abbrev pub Redactor : Type 0
Redactor = String → Cow

-- `Cow::Owned(redacted) if redacted != text`: the new text, where it is another.
unfoldable pub new_text : Cow → String → Option String
new_text (borrowed t) text = none
new_text (owned t) text = if t == text then none else some t

unfoldable pub is_digit_char : Char → Bool
is_digit_char c = leb 48 (code c) && leb (code c) 57

unfoldable pub starts_card : String → Bool
starts_card [] = false
starts_card (c ∷ t) = leb 50 (code c) && leb (code c) 54

unfoldable pub card_shaped : String → Bool
unfolding strip_prefix all_chars is_digit_char starts_card
card_shaped text =
    let digits = unwrap_or (strip_prefix "-" text) text in
    leb 13 (len digits)
    && leb (len digits) 19
    && all_chars is_digit_char digits
    && starts_card digits

-- `Map::insert` of a map that is sorted by its keys: a key that is there gets the new value.
unfoldable pub insert_field : String → Value → Fields → Fields
insert_field k v end = field k v end
insert_field k v (field l w fields) =
    let rest = insert_field k v fields in
    elim (compare k l) [
      | Ordering.lt ↦ field k v (field l w fields)
      | Ordering.eq ↦ field l v fields
      | Ordering.gt ↦ field l w rest
    ]

-- The map that collects entries, in their order.
unfoldable pub collect_fields : Fields → Fields → Fields
unfolding insert_field
collect_fields end acc = acc
collect_fields (field k v fields) acc = collect_fields fields (insert_field k v acc)

unfoldable pub redact_text : Redactor → String → String × Bool
unfolding new_text
redact_text r text = elim (new_text (r text) text) [ none ↦ (text, false) | some t ↦ (t, true) ]

unfoldable pub redact_number : Redactor → String → Value × Bool
unfolding card_shaped new_text
redact_number r digits =
    if card_shaped digits
    then (elim (new_text (r digits) digits) [
      | none ↦ (number digits, false)
      | some t ↦ (string t, true)
    ])
    else (number digits, false)

unfoldable mutual
  unfolding redact_text redact_number collect_fields

  pub redact_value : Redactor → Value → Value × Bool
  redact_value r null = (null, false)
  redact_value r (bool b) = (bool b, false)
  redact_value r (number n) = redact_number r n
  redact_value r (string s) = let (t, changed) = redact_text r s in (string t, changed)
  redact_value r (array items) =
      let (items', changed) = redact_items r items in (array items', changed)
  redact_value r (object fields) =
      let (entries, changed) = redact_fields r fields in
      (object (collect_fields entries end), changed)

  pub redact_items : Redactor → Items → Items × Bool
  redact_items r nil = (nil, false)
  redact_items r (cons v items) =
      let (v', changed) = redact_value r v in
      let (items', more) = redact_items r items in (cons v' items', changed || more)

  -- The entries of an object, before they are collected.
  pub redact_fields : Redactor → Fields → Fields × Bool
  redact_fields r end = (end, false)
  redact_fields r (field k v fields) =
      let (v', changed) = redact_value r v in
      let (k', renamed) = redact_text r k in
      let (fields', more) = redact_fields r fields in
      (field k' v' fields', changed || renamed || more)
