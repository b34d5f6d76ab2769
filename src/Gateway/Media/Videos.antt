-- ===== src/Gateway/Media/Videos.antt =====
-- crates/yb-gateway/src/media.rs: what is asked about a video that was made, `handle_video`.
pub mod Unknown
use Prim.Native.String
use sovereign_gateway.Base.{
  ℕ, String, Option, none, some, List, [], ◌∷◌, eqb, if◌then◌else◌, unwrap_or, false,
}
use sovereign_gateway.Core.Deployments.{Deployment}
use sovereign_gateway.Core.Errors.{Error, upstream, not_found}
use sovereign_gateway.Core.Formats.{media, openai_videos}
use sovereign_gateway.Gateway.Bodies.{full, streamed}
use sovereign_gateway.Gateway.Dispatch.{
  RequestCtx, UpstreamRequest, HttpMethod, get, delete, Sent, unreachable, answered, filter_access,
  extra_headers,
}
use sovereign_gateway.Gateway.Media.{MediaServices, type_of}
use sovereign_gateway.Gateway.Turns.{Answer, failed, answered_full}
use sovereign_gateway.Routing.Resolve.{Router, serving}
use sovereign_gateway.Upstream.Headers.{media_auth_headers, append_headers}
use sovereign_gateway.Upstream.Urls.{build_media_url}

pub data VideoLookup : Type 0 where
  status content remove : VideoLookup

abbrev join_text : String → String → String
join_text a b = String.◌++◌ a b

unfoldable pub video_url : Deployment → String → VideoLookup → String
unfolding build_media_url
video_url d id lookup =
    let url = join_text (build_media_url openai_videos d.api_base) (join_text "/" id) in
    elim lookup [ status ↦ url | content ↦ join_text url "/content" | remove ↦ url ]

abbrev method_of : VideoLookup → HttpMethod
method_of status = get
method_of content = get
method_of remove = delete

abbrev no_such_video : Answer
no_such_video = failed (not_found "no such video")

-- What the last deployments leave to tell.
abbrev pub exhausted : Option Error → Option Answer → Answer
exhausted (some e) answer = failed e
exhausted none answer = unwrap_or answer no_such_video

module _ (s : MediaServices) (id : String) (lookup : VideoLookup) where
  unfoldable pub video_request : Deployment → UpstreamRequest
  unfolding video_url media_auth_headers append_headers extra_headers
  video_request d = record {
    url = video_url d id lookup;
    method = method_of lookup;
    headers =
        append_headers (media_auth_headers s.env (unwrap_or d.api_key ""))
          (extra_headers s.cf_access d.extra);
    body = "";
    stream = false;
  }

  unfoldable pub video_answer : Deployment → Sent × Option String → Answer
  video_answer d (unreachable e, response_type) = failed e
  video_answer d (answered code (full body), response_type) =
      answered_full code (("content-type", type_of response_type) ∷ []) body
  video_answer d (answered code (streamed chunks), response_type) =
      failed (upstream d.provider 502 "the engine streamed a video lookup")

  unfoldable pub ask_about_video : Deployment → s.World → s.World × Answer
  unfolding video_request video_answer
  ask_about_video d w = let (w1, sent) = s.send (video_request d) w in (w1, video_answer d sent)

  -- One deployment after the other, until one answers that it knows the video.
  unfoldable pub ask_each :
      List Deployment → Option Error → Option Answer → s.World → s.World × Answer
  unfolding ask_about_video
  ask_each [] lost answer w = (w, exhausted lost answer)
  ask_each (d ∷ ds) lost answer w =
      let (w1, told) = ask_about_video d w in
      elim told [
        | failed e ↦ ask_each ds (some e) answer w1
        | answered_full code headers body ↦
            let rest = ask_each ds lost (some (answered_full code headers body)) w1 in
            if eqb code 404 then rest else (w1, answered_full code headers body)
      ]

  unfoldable pub handle_video : RequestCtx → Router → s.World → s.World × Answer
  unfolding ask_each filter_access serving
  handle_video ctx r w = elim (s.video_model id) [
    | none ↦ (w, no_such_video)
    | some model ↦ ask_each (filter_access (serving (media openai_videos) model r) ctx) none none w
  ]
