-- ===== src/Upstream/Headers.antt =====
-- crates/yb-providers/src/route.rs: the headers that authenticate a call, and how the headers of a
-- deployment are added to them. The environment is a function from a variable's name to its value.
pub mod Laws
use sovereign_gateway.Base.{
  ℕ, zero, suc, ◌+◌, ◌-◌, ◌*◌, ◌%◌, ◌≤◌, ◌<◌, String, ◌≡◌, ◌≢◌, refl, sym, ap, ◌∙◌, ◌↔◌, ◌⊎◌, inl,
  inr, Bool, true, false, not, ◌&&◌, ◌||◌, Option, none, some, List, [], ◌∷◌, map, ◌==◌, eq_iff,
  eq_refl, arith, ltb, leb, eqb, if◌then◌else◌, Bool-cases, Option-cases, All, All-append, length,
  is_nil, select, contains, any, unwrap_or, or_else,
}
use Prim.Native.String.{◌++◌}
use sovereign_gateway.Base.Text.{strip_prefix, eq_ignore_ascii_case}
use sovereign_gateway.Core.Formats.{
  WireFormat, anthropic, openai_chat, openai_responses, gemini, EmbedFormat, openai_embed,
  gemini_embed, cohere_embed, voyage_embed, ollama_embed,
}

unfoldable pub upstream_secret : (String → Option String) → String → String
unfolding strip_prefix
upstream_secret env api_key = elim (strip_prefix "env:" api_key) [
  | some name ↦ unwrap_or (env name) ""
  | none ↦ api_key
]

unfoldable pub auth_headers :
    (String → Option String) → WireFormat → String → List (String × String)
unfolding upstream_secret
auth_headers env fmt api_key =
    let secret = upstream_secret env api_key in
    elim fmt [
      | anthropic ↦ ("x-api-key", secret) ∷ ("anthropic-version", "2023-06-01") ∷ []
      | openai_chat ↦ ("authorization", "Bearer " ++ secret) ∷ []
      | openai_responses ↦ ("authorization", "Bearer " ++ secret) ∷ []
      | gemini ↦ ("x-goog-api-key", secret) ∷ []
    ]

unfoldable pub embed_auth_headers :
    (String → Option String) → EmbedFormat → String → List (String × String)
unfolding upstream_secret
embed_auth_headers env fmt api_key =
    let secret = upstream_secret env api_key in
    elim fmt [
      | gemini_embed ↦ ("x-goog-api-key", secret) ∷ []
      | ollama_embed ↦ (if secret == "" then [] else ("authorization", "Bearer " ++ secret) ∷ [])
      | openai_embed ↦ ("authorization", "Bearer " ++ secret) ∷ []
      | cohere_embed ↦ ("authorization", "Bearer " ++ secret) ∷ []
      | voyage_embed ↦ ("authorization", "Bearer " ++ secret) ∷ []
    ]

unfoldable pub media_auth_headers : (String → Option String) → String → List (String × String)
unfolding upstream_secret
media_auth_headers env api_key = ("authorization", "Bearer " ++ upstream_secret env api_key) ∷ []

unfoldable pub cloudflare_access_headers : String → String → List (String × String)
cloudflare_access_headers client_id client_secret =
    ("cf-access-client-id", client_id) ∷ ("cf-access-client-secret", client_secret) ∷ []

-- Whether a list of headers has the name, in whichever case.
unfoldable pub has_name : String → List (String × String) → Bool
unfolding any eq_ignore_ascii_case
has_name name headers = any (λ (existing, _). eq_ignore_ascii_case existing name) headers

-- Rust's `push`: the new header goes to the end.
abbrev pub push : List (String × String) → String × String → List (String × String)
push [] h = h ∷ []
push (g ∷ hs) h = g ∷ push hs h

unfoldable pub append_headers :
    List (String × String) → List (String × String) → List (String × String)
append_headers headers [] = headers
append_headers headers ((name, value) ∷ extra) =
    append_headers (if has_name name headers then headers else push headers (name, value)) extra
