-- ===== src/Wire/Errors.antt =====
-- crates/yb-wire/src/error.rs: why a wire format is refused, and how the gateway tells it
-- (crates/yb-gateway/src/wire.rs, `wire_err`).
use Prim.Native.String
use sovereign_gateway.Base.{String}
use sovereign_gateway.Core.Errors.{Error, wire, Result, ok, err}

pub data WireError : Type 0 where
  json missing_field invalid_request invalid_response unsupported : String → WireError
  invalid_field : (name reason : String) → WireError

abbrev join_text : String → String → String
join_text a b = String.◌++◌ a b

-- `Display`
unfoldable pub display : WireError → String
display (json m) = join_text "invalid json: " m
display (missing_field name) = join_text "missing field: " name
display (invalid_field name reason) =
    join_text "invalid field " (join_text name (join_text ": " reason))
display (invalid_request m) = join_text "invalid request: " m
display (invalid_response m) = join_text "invalid response: " m
display (unsupported m) = join_text "unsupported: " m

unfoldable pub wire_err : WireError → Error
unfolding display
wire_err e = wire (display e)

-- The crate's `Result`.
pub data WireResult {ℓ} (A : Type ℓ) : Type ℓ where
  accepted : A → WireResult A
  rejected : WireError → WireResult A

-- `?`
abbrev pub and_then {ℓ κ} :
    {A : Type ℓ} {B : Type κ} → (A → WireResult B) → WireResult A → WireResult B
and_then f (accepted a) = f a
and_then f (rejected e) = rejected e

-- `map_err(wire_err)`
unfoldable pub map_err {ℓ} : {A : Type ℓ} → WireResult A → Result A
unfolding wire_err
map_err (accepted a) = ok a
map_err (rejected e) = err (wire_err e)

infixl 5 ◌>>=◌
abbrev pub ◌>>=◌ {ℓ κ} :
    {A : Type ℓ} {B : Type κ} → WireResult A → (A → WireResult B) → WireResult B
accepted a >>= f = f a
rejected e >>= f = rejected e
