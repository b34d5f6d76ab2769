-- ===== src/Core/Formats.antt =====
-- crates/yb-core/src/routing.rs: the wire formats of chat, embeddings and media, and the health
-- check methods.
use sovereign_gateway.Base.{
  String, ◌≡◌, refl, ap, ◌∙◌, sym, Option, some, none, if◌then◌else◌, ◌==◌,
}

pub data WireFormat : Type 0 where
  anthropic openai_chat openai_responses gemini : WireFormat

pub data EmbedFormat : Type 0 where
  openai_embed gemini_embed cohere_embed voyage_embed ollama_embed : EmbedFormat

pub data MediaFormat : Type 0 where
  openai_images openai_speech openai_transcription openai_videos : MediaFormat

pub data UpstreamFormat : Type 0 where
  chat : WireFormat → UpstreamFormat
  embed : EmbedFormat → UpstreamFormat
  media : MediaFormat → UpstreamFormat

pub data HealthCheck : Type 0 where
  unchecked http_ok models_list probe : HealthCheck

unfoldable pub wire_str : WireFormat → String
wire_str anthropic = "anthropic"
wire_str openai_chat = "openai_chat"
wire_str openai_responses = "openai_responses"
wire_str gemini = "gemini"

unfoldable pub embed_str : EmbedFormat → String
embed_str openai_embed = "openai_embed"
embed_str gemini_embed = "gemini_embed"
embed_str cohere_embed = "cohere_embed"
embed_str voyage_embed = "voyage_embed"
embed_str ollama_embed = "ollama_embed"

unfoldable pub media_str : MediaFormat → String
media_str openai_images = "openai_images"
media_str openai_speech = "openai_speech"
media_str openai_transcription = "openai_transcription"
media_str openai_videos = "openai_videos"

-- The endpoint of a media format below an OpenAI-compatible base.
unfoldable pub media_path : MediaFormat → String
media_path openai_images = "images/generations"
media_path openai_speech = "audio/speech"
media_path openai_transcription = "audio/transcriptions"
media_path openai_videos = "videos"

unfoldable pub upstream_str : UpstreamFormat → String
unfolding wire_str embed_str media_str
upstream_str (chat f) = wire_str f
upstream_str (embed f) = embed_str f
upstream_str (media f) = media_str f

unfoldable pub health_str : HealthCheck → String
health_str unchecked = "none"
health_str http_ok = "http_ok"
health_str models_list = "models_list"
health_str probe = "probe"

unfoldable pub UpstreamFormat-discrete : Discrete UpstreamFormat
UpstreamFormat-discrete = hlevel

-- The format that a flat string names.
named : String → Option UpstreamFormat
named s =
    if s == "anthropic"
    then some (chat anthropic)
    else if s == "openai_chat"
    then some (chat openai_chat)
    else if s == "openai_responses"
    then some (chat openai_responses)
    else if s == "gemini"
    then some (chat gemini)
    else if s == "openai_embed"
    then some (embed openai_embed)
    else if s == "gemini_embed"
    then some (embed gemini_embed)
    else if s == "cohere_embed"
    then some (embed cohere_embed)
    else if s == "voyage_embed"
    then some (embed voyage_embed)
    else if s == "ollama_embed"
    then some (embed ollama_embed)
    else if s == "openai_images"
    then some (media openai_images)
    else if s == "openai_speech"
    then some (media openai_speech)
    else if s == "openai_transcription"
    then some (media openai_transcription)
    else if s == "openai_videos"
    then some (media openai_videos)
    else none

named-upstream_str : (f : UpstreamFormat) → named (upstream_str f) ≡ some f
unfolding named upstream_str
named-upstream_str (chat anthropic) = refl
named-upstream_str (chat openai_chat) = refl
named-upstream_str (chat openai_responses) = refl
named-upstream_str (chat gemini) = refl
named-upstream_str (embed openai_embed) = refl
named-upstream_str (embed gemini_embed) = refl
named-upstream_str (embed cohere_embed) = refl
named-upstream_str (embed voyage_embed) = refl
named-upstream_str (embed ollama_embed) = refl
named-upstream_str (media openai_images) = refl
named-upstream_str (media openai_speech) = refl
named-upstream_str (media openai_transcription) = refl
named-upstream_str (media openai_videos) = refl

-- The flat strings of the chat, embeddings and media formats are pairwise distinct: two formats
-- that are written alike are one.
pub upstream_str-injective : (f g : UpstreamFormat) → upstream_str f ≡ upstream_str g → f ≡ g
upstream_str-injective f g h =
    let same : some f ≡ some g = sym (named-upstream_str f) ∙ ap named h ∙ named-upstream_str g in
    cc
