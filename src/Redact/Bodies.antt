-- ===== src/Redact/Bodies.antt =====
-- crates/yb-redact/src/lib.rs, `redact_json` and `redact_body`: a captured body without personal data. The
-- reader and the writer of JSON (serde_json) and UTF-8 are parameters.
pub mod Kept
use sovereign_gateway.Base.{
  ℕ, zero, suc, ◌+◌, ◌-◌, ◌*◌, ◌%◌, ◌≤◌, ◌<◌, String, ◌≡◌, ◌≢◌, refl, sym, ap, ◌∙◌, ◌↔◌, ◌⊎◌, inl,
  inr, Bool, true, false, not, ◌&&◌, ◌||◌, Option, none, some, List, map, ◌==◌, eq_iff, eq_refl,
  arith, ltb, leb, eqb, if◌then◌else◌, Bool-cases, Option-cases, All, All-append, length, is_nil,
  select, contains, any, unwrap_or, or_else,
}
use Prim.Native.String.{[], ◌∷◌, ◌++◌}
use sovereign_gateway.Redact.Keys.{has_unique_keys}
use sovereign_gateway.Redact.Values.{Redactor, redact_value, redact_text, borrowed, owned}
use sovereign_gateway.Core.Json.{Value, null, bool, number, string, array, object}
use sovereign_gateway.Base.Text.{
  is_whitespace, trim_start, strip_suffix, split, strip_prefix, join, is_line_feed,
}
use Prim.Native.Char.{Char, code}

-- What a body says is read into a value, which has the last member of each key, and shown to a visitor,
-- which sees each key as often as it stands there (`visited`).
pub record Serde : Type 0 where
  pub from_slice : List ℕ → Option Value
  pub visited : List ℕ → Option Value
  pub to_vec : Value → Option (List ℕ)
  pub from_utf8 : List ℕ → Option String
  pub from_utf8_lossy : List ℕ → String
  pub as_bytes : String → List ℕ

unfoldable pub is_container : Value → Bool
is_container (object fields) = true
is_container (array items) = true
is_container null = false
is_container (bool b) = false
is_container (number n) = false
is_container (string s) = false

-- Whether the body parses as `UniqueKeys`.
unfoldable pub is_unique : Serde → List ℕ → Bool
unfolding has_unique_keys
is_unique s body = elim (s.visited body) [ none ↦ false | some v ↦ has_unique_keys v ]

-- No answer where the body is no object or array; otherwise the new body, if there is one.
unfoldable pub redact_parsed : Serde → Redactor → Value → Bool → Option (Option (List ℕ))
unfolding is_container redact_value
redact_parsed s r value unique =
    let (value', changed) = redact_value r value in
    if not (is_container value)
    then none
    else if not changed && unique
    then some none
    else some (s.to_vec value')

unfoldable pub redact_json : Serde → Redactor → List ℕ → Option (Option (List ℕ))
unfolding redact_parsed is_unique
redact_json s r body = elim (s.from_slice body) [
  | none ↦ none
  | some value ↦ redact_parsed s r value (is_unique s body)
]

unfoldable pub leading : String → String
unfolding is_whitespace
leading [] = []
leading (c ∷ t) = let more = leading t in if is_whitespace c then c ∷ more else []

-- What `redact` makes of a text that is no JSON.
unfoldable pub redacted_text : Redactor → String → String
redacted_text r t = elim (r t) [ borrowed u ↦ u | owned u ↦ u ]

unfoldable pub redact_rest : Serde → Redactor → String → String
unfolding leading trim_start redact_json redacted_text
redact_rest s r rest = elim (redact_json s r (s.as_bytes (trim_start rest))) [
  | none ↦ redacted_text r rest
  | some none ↦ rest
  | some (some json) ↦ leading rest ++ s.from_utf8_lossy json
]

-- A line with its prefix and its carriage return taken apart, and whether it changed.
unfoldable pub redact_line : Serde → Redactor → String → String × Bool
unfolding strip_suffix strip_prefix redact_rest
redact_line s r whole =
    let (line, carriage) : String × String = elim (strip_suffix "\r" whole) [
      | some line ↦ (line, "\r")
      | none ↦ (whole, "")
    ] in
    let (prefix, rest) : String × String = elim (strip_prefix "data:" line) [
      | some rest ↦ ("data:", rest)
      | none ↦ ("", line)
    ] in
    let redacted = redact_rest s r rest in
    (prefix ++ (redacted ++ carriage), not (redacted == rest))

unfoldable pub redact_text_body : Serde → Redactor → List ℕ → String → List ℕ
unfolding split is_line_feed redact_line join any
redact_text_body s r body text =
    let lines = map (redact_line s r) (split is_line_feed text) in
    if any (λ (line, changed). changed) lines
    then s.as_bytes (join "\n" (map (λ (line, changed). line) lines))
    else body

unfoldable pub redact_body : Serde → Redactor → List ℕ → List ℕ
unfolding redact_json redact_text_body
redact_body s r body = elim (redact_json s r body) [
  | some redacted ↦ unwrap_or redacted body
  | none ↦ elim (s.from_utf8 body) [ none ↦ List.[] | some text ↦ redact_text_body s r body text ]
]
