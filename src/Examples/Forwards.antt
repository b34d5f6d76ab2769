-- ===== src/Examples/Forwards.antt =====
-- A turn of embeddings whose first upstream is busy, and one of speech.
use sovereign_gateway.Base.{
  select, contains, ◌≡◌, refl, true, false, none, some, [], ◌∷◌, ◌==◌, if◌then◌else◌, Bool, String,
}
use sovereign_gateway.Core.Deployments.{Deployment}
use sovereign_gateway.Core.Errors.{ok, err, bad_request}
use sovereign_gateway.Core.Formats.{
  openai_videos, UpstreamFormat-discrete, chat, openai_chat, embed, openai_embed, media,
  openai_speech,
}
use sovereign_gateway.Examples.{floats, deployment}
use sovereign_gateway.Gateway.Bodies.{full}
use sovereign_gateway.Gateway.Dispatch.{filter_access, may_serve, RequestCtx, answered}
use sovereign_gateway.Gateway.Dispatch.Access.{IsPermitted}
use sovereign_gateway.Gateway.Embeddings.{EmbedServices, handle_embed}
use sovereign_gateway.Gateway.Embeddings.Records.{IsTold, IsEmbedding, handle_embed-IsReported}
use sovereign_gateway.Gateway.Media.{MediaServices, handle_media}
use sovereign_gateway.Gateway.Media.Records.{IsForwarded, handle_media-IsReported}
use sovereign_gateway.Core.Access.{permits_model, permits_provider}
use sovereign_gateway.Gateway.Media.Videos.{
  handle_video, ask_each, ask_about_video, video_answer, status,
}
use sovereign_gateway.Gateway.Media.Videos.Unknown.{AreUnknown, handle_video-unknown}
use sovereign_gateway.Gateway.Turns.Records.{IsReported}
use sovereign_gateway.Routing.Resolve.{serving, Router}
use sovereign_gateway.Routing.Table.{round_robin}
use sovereign_gateway.Wire.Embed.{EmbedRequest, EmbedResponse, text}
use sovereign_gateway.Wire.Media.{MediaRequest}

abbrev chatty : Deployment
chatty = deployment "vec" "p1" (chat openai_chat)

abbrev busy : Deployment
busy = deployment "vec" "p2" (embed openai_embed)

abbrev idle : Deployment
idle = deployment "vec" "p3" (embed openai_embed)

abbrev voice : Deployment
voice = deployment "say" "p4" (media openai_speech)

abbrev router : Router
router = record {
  snapshot = record {
    models =
        ("vec", record { deployments = chatty ∷ busy ∷ idle ∷ []; rr = 0; load = 0 ∷ 0 ∷ 0 ∷ [] })
        ∷ ("say", record { deployments = voice ∷ []; rr = 0; load = 0 ∷ [] })
        ∷ [];
    fallbacks = [];
    aliases = [];
    strategy = round_robin;
  };
  rng = 7;
}

abbrev ctx : RequestCtx
ctx = record {
  excluded_model_ids = [];
  excluded_provider_ids = [];
  access = record {
    allowed_model_ids = [];
    denied_model_ids = [];
    allowed_provider_ids = [];
    denied_provider_ids = "p9" ∷ [];
  };
}

abbrev request : EmbedRequest
request = record {
  model = "vec";
  inputs = record { parts = text "hello" ∷ [] } ∷ [];
  input_type = none;
  output_dimensions = none;
  truncate = none;
  encoding_format = none;
  cohere_embedding_types = none;
  gemini_batch = false;
  openai_content = false;
}

abbrev embedded : EmbedResponse
embedded = record {
  model = "vec";
  embeddings = (0 ∷ []) ∷ [];
  usage = record { input_tokens = 1; image_units = 0 };
}

-- The World counts the calls: the first is refused for the moment.
abbrev embed_services : EmbedServices
embed_services = record {
  World = Bool;
  env = λ name. none;
  cf_access = none;
  parse_request = λ fmt b. ok request;
  emit_request = λ fmt req model. ok ("{}", []);
  parse_response = λ fmt b. ok embedded;
  emit_response = λ fmt parsed req. ok "[[0]]";
  to_vec = λ parsed. "[[0]]";
  send = λ u called.
      (true, if called then answered 200 (full "[[0]]") else answered 503 (full "busy"));
}

handle_embed-IsReported_example :
    IsReported
      (IsTold embed_services openai_embed request)
      (λ d. IsPermitted ctx d × IsEmbedding embed_services openai_embed request d)
      (handle_embed embed_services floats openai_embed "{}" ctx router false).1
handle_embed-IsReported_example =
    handle_embed-IsReported embed_services floats openai_embed "{}" ctx router false request refl

abbrev spoken : MediaRequest
spoken = record { model = "say"; multipart_boundary = none }

abbrev media_services : MediaServices
media_services = record {
  World = Bool;
  env = λ name. none;
  cf_access = none;
  route_request = λ b content_type. if b == "" then err (bad_request "empty") else ok spoken;
  upstream_body = λ request b model. ok b;
  video_model = λ id. none;
  send = λ u called. (true, (answered 200 (full "RIFF"), some "audio/wav"));
}

handle_media-IsReported_example :
    IsReported IsForwarded
      (λ d. IsPermitted ctx d × (d.upstream_format ≡ media openai_speech))
      (handle_media media_services floats openai_speech "{}" "application/json" ctx router false).1
handle_media-IsReported_example =
    handle_media-IsReported media_services floats openai_speech "{}" "application/json" ctx router
      false spoken refl

abbrev camera : Deployment
camera = deployment "cam" "p5" (media openai_videos)

abbrev cinema : Router
cinema = record router {
  snapshot = record router.snapshot {
    models = ("cam", record { deployments = camera ∷ []; rr = 0; load = 0 ∷ [] }) ∷ [];
  };
}

-- No video is known.
abbrev forgetful : MediaServices
forgetful = record media_services {
  video_model = λ id. some "cam";
  send = λ u called. (true, (answered 404 (full "gone"), none));
}

handle_video-unknown_example :
    (model : String) × (forgetful.video_model "video_1" ≡ some model)
    × AreUnknown forgetful "video_1" status
        (filter_access (serving (media openai_videos) model cinema) ctx)
        false
unfolding handle_video ask_each ask_about_video video_answer serving UpstreamFormat-discrete
    filter_access may_serve select permits_model permits_provider contains
    mathlib.Core.List.flat_map mathlib.Core.Bool.decide
handle_video-unknown_example = handle_video-unknown forgetful "video_1" status ctx cinema false refl
