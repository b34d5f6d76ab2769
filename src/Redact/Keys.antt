-- ===== src/Redact/Keys.antt =====
-- crates/yb-redact/src/lib.rs, `UniqueKeys`: whether JSON gives a key of an object twice.
use sovereign_gateway.Base.{String, Bool, true, not, ◌&&◌, List, [], ◌∷◌, contains}
use sovereign_gateway.Core.Json.{
  Value, null, bool, number, string, array, object, Items, nil, cons, Fields, end, field,
}

-- The visitor, on the values that the reader shows it with every key as often as it stands in the text;
-- of an object with the keys that were seen.
unfoldable mutual
  pub has_unique_keys : Value → Bool
  has_unique_keys null = true
  has_unique_keys (bool b) = true
  has_unique_keys (number n) = true
  has_unique_keys (string s) = true
  has_unique_keys (array items) = visit_seq items
  has_unique_keys (object fields) = visit_map [] fields

  pub visit_seq : Items → Bool
  visit_seq nil = true
  visit_seq (cons v items) = has_unique_keys v && visit_seq items

  pub visit_map : List String → Fields → Bool
  visit_map seen end = true
  visit_map seen (field k v fields) =
      not (contains k seen) && (has_unique_keys v && visit_map (k ∷ seen) fields)
