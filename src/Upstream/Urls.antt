-- ===== src/Upstream/Urls.antt =====
-- crates/yb-providers/src/route.rs and the model listing of crates/yb-gateway/src/health.rs: the URL of a
-- deployment for each wire format, and the classes of
-- status codes that drive failover.
pub mod Laws
use sovereign_gateway.Base.{
  ℕ, zero, suc, ◌+◌, ◌-◌, ◌*◌, ◌%◌, ◌≤◌, ◌<◌, String, ◌≡◌, ◌≢◌, refl, sym, ap, ◌∙◌, ◌↔◌, ◌⊎◌, inl,
  inr, Bool, true, false, not, ◌&&◌, ◌||◌, Option, none, some, List, [], ◌∷◌, map, ◌==◌, eq_iff,
  eq_refl, arith, ltb, leb, eqb, if◌then◌else◌, Bool-cases, Option-cases, All, All-append, length,
  is_nil, select, contains, any, unwrap_or, or_else,
}
use Prim.Native.String.{◌++◌}
use sovereign_gateway.Base.Text.{ends_with, strip_suffix}
use sovereign_gateway.Core.Formats.{
  UpstreamFormat, chat, embed, media, WireFormat, anthropic, openai_chat, openai_responses, gemini,
  EmbedFormat, MediaFormat, media_path, openai_embed, gemini_embed, cohere_embed, voyage_embed,
  ollama_embed,
}

abbrev pub anthropic_base : String
anthropic_base = "https://api.anthropic.com"

abbrev pub openai_base : String
openai_base = "https://api.openai.com"

abbrev pub gemini_base : String
gemini_base = "https://generativelanguage.googleapis.com"

abbrev pub cohere_base : String
cohere_base = "https://api.cohere.com"

abbrev pub voyage_base : String
voyage_base = "https://api.voyageai.com"

abbrev pub ollama_base : String
ollama_base = "http://localhost:11434"

unfoldable pub trim_base : String → String
unfolding strip_suffix
trim_base base = unwrap_or (strip_suffix "/" base) base

-- The join that the three builders of URLs each write out: the version is added unless the base
-- ends with it.
unfoldable pub join_url : String → String → String → String
unfolding ends_with
join_url base version endpoint =
    if (base == version) || ends_with base ("/" ++ version)
    then base ++ "/" ++ endpoint
    else base ++ "/" ++ version ++ "/" ++ endpoint

-- The default base, the version and the endpoint of a chat format.
unfoldable pub chat_target : WireFormat → String → Bool → String × (String × String)
chat_target anthropic model stream = (anthropic_base, ("v1", "messages"))
chat_target openai_chat model stream = (openai_base, ("v1", "chat/completions"))
chat_target openai_responses model stream = (openai_base, ("v1", "responses"))
chat_target gemini model stream = (
  gemini_base,
  (
    "v1beta",
    "models/"
        ++ (if stream
            then model ++ ":streamGenerateContent?alt=sse"
            else model ++ ":generateContent"),
  ),
)

unfoldable pub embed_target : EmbedFormat → String → String × (String × String)
embed_target openai_embed model = (openai_base, ("v1", "embeddings"))
embed_target gemini_embed model =
    (gemini_base, ("v1beta", "models/" ++ model ++ ":batchEmbedContents"))
embed_target cohere_embed model = (cohere_base, ("v2", "embed"))
embed_target voyage_embed model = (voyage_base, ("v1", "multimodalembeddings"))
embed_target ollama_embed model = (ollama_base, ("api", "embed"))

unfoldable pub build_url : WireFormat → Option String → String → Bool → String
unfolding trim_base join_url chat_target
build_url fmt api_base model stream =
    let (default_base, (version, endpoint)) = chat_target fmt model stream in
    join_url (trim_base (unwrap_or api_base default_base)) version endpoint

unfoldable pub build_embed_url : EmbedFormat → Option String → String → String
unfolding trim_base join_url embed_target
build_embed_url fmt api_base model =
    let (default_base, (version, endpoint)) = embed_target fmt model in
    join_url (trim_base (unwrap_or api_base default_base)) version endpoint

unfoldable pub build_media_url : MediaFormat → Option String → String
unfolding trim_base join_url media_path
build_media_url fmt api_base =
    join_url (trim_base (unwrap_or api_base openai_base)) "v1" (media_path fmt)

unfoldable pub is_retryable : ℕ → Bool
is_retryable status = leb 500 status || eqb status 408 || eqb status 429

unfoldable pub is_model_not_found : ℕ → Bool
is_model_not_found status = eqb status 404

-- The URL that lists the models, or why there is none.
pub data Listing : Type 0 where
  listed : String → Listing
  unlisted : String → Listing

unfoldable pub listing_target : UpstreamFormat → Option (String × (String × String))
listing_target (chat anthropic) = some (anthropic_base, ("v1", "models"))
listing_target (chat openai_chat) = some (openai_base, ("v1", "models"))
listing_target (chat openai_responses) = some (openai_base, ("v1", "models"))
listing_target (chat gemini) = some (gemini_base, ("v1beta", "models"))
listing_target (embed openai_embed) = some (openai_base, ("v1", "models"))
listing_target (embed gemini_embed) = some (gemini_base, ("v1beta", "models"))
listing_target (embed cohere_embed) = some (cohere_base, ("v1", "models"))
listing_target (embed ollama_embed) = some (ollama_base, ("api", "tags"))
listing_target (embed voyage_embed) = none
listing_target (media fmt) = some (openai_base, ("v1", "models"))

unfoldable pub models_list_url_for : UpstreamFormat → Option String → Listing
unfolding listing_target trim_base join_url
models_list_url_for fmt api_base = elim (listing_target fmt) [
  | some (default_base, (version, endpoint)) ↦
      listed (join_url (trim_base (unwrap_or api_base default_base)) version endpoint)
  | none ↦ unlisted "voyage has no model-listing endpoint; use http_ok or probe"
]
