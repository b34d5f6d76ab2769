-- ===== src/Gateway/Bodies.antt =====
-- crates/yb-gateway/src/service.rs, `read_body_message`: the message in the body of an upstream's error.
-- A stream is the list of its chunks, `none` for a read that fails. Bytes are texts, as they are where
-- the body is UTF-8.
use sovereign_gateway.Base.{
  ℕ, zero, suc, ◌+◌, ◌*◌, String, Option, none, some, List, leb, if◌then◌else◌, ◌==◌,
}
use Prim.Native.String.{[], ◌∷◌, ◌++◌, len}
use sovereign_gateway.Base.Text.{trim}

pub data ResponseBody : Type 0 where
  full : String → ResponseBody
  streamed : List (Option String) → ResponseBody

-- The chunks up to a failed read, or until there are 64 KiB.
unfoldable pub drain : ℕ → List (Option String) → String
drain got List.[] = ""
drain got (List.◌∷◌ none chunks) = ""
drain got (List.◌∷◌ (some chunk) chunks) =
    let rest = drain (got + len chunk) chunks in
    if leb (64 * 1024) (got + len chunk) then chunk else chunk ++ rest

unfoldable pub take_chars : ℕ → String → String
take_chars zero t = ""
take_chars (suc n) [] = ""
take_chars (suc n) (c ∷ t) = c ∷ take_chars n t

unfoldable pub shorten : String → String
unfolding trim take_chars
shorten t =
    let trimmed = trim t in
    if trimmed == "" then "upstream error (no body)" else take_chars 2000 trimmed

unfoldable pub read_body_message : ResponseBody → String
unfolding drain shorten
read_body_message (full b) = shorten b
read_body_message (streamed chunks) = shorten (drain 0 chunks)
