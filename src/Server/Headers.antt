-- ===== src/Server/Headers.antt =====
-- crates/yb-server/src/lib.rs: what is read from the headers of a request, and hexadecimal text. A header
-- map (axum) is a parameter: the value of a name, and its text where it is visible ASCII.
pub mod Hex
use sovereign_gateway.Base.{
  ℕ, zero, suc, ◌+◌, ◌-◌, ◌*◌, ◌%◌, ◌≤◌, ◌<◌, String, ◌≡◌, ◌≢◌, refl, sym, ap, ◌∙◌, ◌↔◌, ◌⊎◌, inl,
  inr, Bool, true, false, not, ◌&&◌, ◌||◌, Option, none, some, List, [], ◌∷◌, ◌++◌, map, ◌==◌,
  eq_iff, eq_refl, arith, ltb, leb, eqb, if◌then◌else◌, Bool-cases, Option-cases, All, All-append,
  length, is_nil, select, contains, any, unwrap_or, or_else, ◌/◌, first_four,
}
use Prim.Native.String.{[], ◌∷◌, len}
use sovereign_gateway.Base.Text.{trim, to_ascii_lowercase, strip_prefix, split}
use Prim.Native.Char.{Char, code}

pub record HeaderMap : Type 1 where
  pub HeaderValue : Type 0
  pub get : String → Option HeaderValue
  pub to_str : HeaderValue → Option String

unfoldable pub header_str : HeaderMap → String → Option String
header_str headers name = elim (headers.get name) [ none ↦ none | some v ↦ headers.to_str v ]

-- The text from a byte on, where that is the start of a character.
unfoldable pub from_byte : ℕ → String → String
from_byte zero t = t
from_byte (suc n) [] = []
from_byte (suc n) (c ∷ t) = from_byte (suc n - len (c ∷ [])) t

unfoldable pub vendor_token : HeaderMap → Option String
unfolding header_str trim
vendor_token headers = elim (header_str headers "x-api-key") [
  | some v ↦ some (trim v)
  | none ↦ elim (header_str headers "x-goog-api-key") [
    | some v ↦ some (trim v)
    | none ↦ elim (header_str headers "x-gateway-key") [ some v ↦ some (trim v) | none ↦ none ]
  ]
]

-- `bearer `, in either case, is taken off the text as it was sent.
unfoldable pub authorization_token : String → Option String
unfolding to_ascii_lowercase strip_prefix from_byte trim
authorization_token v = elim (strip_prefix "bearer " (to_ascii_lowercase v)) [
  | none ↦ none
  | some stripped ↦ some (trim (from_byte (len v - len stripped) v))
]

unfoldable pub bearer_token : HeaderMap → Option String
unfolding header_str authorization_token vendor_token
bearer_token headers = elim (header_str headers "authorization") [
  | none ↦ vendor_token headers
  | some v ↦ or_else (authorization_token v) (vendor_token headers)
]

unfoldable pub all_chars : (Char → Bool) → String → Bool
all_chars p [] = true
all_chars p (c ∷ t) = p c && all_chars p t

unfoldable pub is_hex_digit : Char → Bool
is_hex_digit c =
    let n = code c in (leb 48 n && leb n 57) || (leb 65 n && leb n 70) || (leb 97 n && leb n 102)

unfoldable pub is_zero : Char → Bool
is_zero c = eqb (code c) 48

unfoldable pub hex : String → ℕ → Bool
unfolding all_chars is_hex_digit
hex s n = eqb (len s) n && all_chars is_hex_digit s

unfoldable pub is_dash : Char → Bool
is_dash c = eqb (code c) 45

unfoldable pub is_trace : String → String → String → String → Bool
unfolding hex is_zero all_chars
is_trace version trace span flags =
    hex version 2
    && not (version == "ff")
    && hex trace 32
    && not (all_chars is_zero trace)
    && hex span 16
    && not (all_chars is_zero span)
    && hex flags 2

-- Parts after the fourth are not looked at.
unfoldable pub parse_traceparent : String → Option (String × String)
unfolding trim split is_dash is_trace to_ascii_lowercase
parse_traceparent value = elim (first_four (split is_dash (trim value))) [
  | none ↦ none
  | some (version, trace, span, flags) ↦
      if is_trace version trace span flags
      then some (to_ascii_lowercase trace, to_ascii_lowercase span)
      else none
]

-- A character of a table.
unfoldable pub char_at : String → ℕ → Char
char_at [] n = "0"
char_at (c ∷ t) zero = c
char_at (c ∷ t) (suc n) = char_at t n

unfoldable pub hex_digit : ℕ → Char
unfolding char_at
hex_digit n = char_at "0123456789abcdef" n

unfoldable pub to_hex : List ℕ → String
unfolding hex_digit
to_hex List.[] = ""
to_hex (List.◌∷◌ b bytes) = hex_digit (b / 16) ∷ hex_digit (b % 16) ∷ to_hex bytes
